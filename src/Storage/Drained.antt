-- ===== src/Storage/Drained.antt =====
-- What a drain leaves behind (runtime/storage/repos.py, drain_to_jobs).
use tdaudiibncba.Common.{
  ℕ, suc, ◌+◌, String, ◌≡◌, refl, sym, ap, ◌∙◌, inl, inr, true, some, List, [], ◌∷◌, ◌++◌, ◌==◌,
  length, All, arith, Bool-cases, beq_refl, string_eq, nat_eq, int_eq, list_eq, pair_eq,
}
use tdaudiibncba.Common.Dict
use tdaudiibncba.Common.Dict.{Dict, get-put}
use tdaudiibncba.Planner.Model.{DeliveryPlan}
use tdaudiibncba.Storage.Inbox.{EventInbox, InboxKey}
use tdaudiibncba.Storage.Jobs.{Jobs, create_from_plan, insert_plans}
use tdaudiibncba.Storage.Batches.{row_key, mark_processed, DrainTables, shifted, drain_to_jobs}

-- The row of a key is there and processed.
abbrev pub IsDone : Dict InboxKey EventInbox → InboxKey → Type 0
IsDone inbox k = (row : EventInbox) × (Dict.get inbox k ≡ some row) × (row.processed ≡ true)

mark-IsDone :
    (row : EventInbox) (inbox : Dict InboxKey EventInbox)
    → IsDone (mark_processed row inbox) (row_key row)
unfolding mark_processed
mark-IsDone row inbox = (
  record row { processed = true },
  rw (
    get-put inbox (row_key row) (row_key row) (record row { processed = true }),
    beq_refl (row_key row),
  ),
  refl,
)

mark-keeps :
    (row : EventInbox) (inbox : Dict InboxKey EventInbox) (k : InboxKey)
    → IsDone inbox k
    → IsDone (mark_processed row inbox) k
unfolding mark_processed
mark-keeps row inbox k (old, found, done) =
    let new : EventInbox = record row { processed = true } in
    elim (Bool-cases (row_key row == k)) [
      | inl p ↦ (new, rw (get-put inbox (row_key row) k new, p), refl)
      | inr p ↦ (old, rw (get-put inbox (row_key row) k new, p) found, done)
    ]

-- The plans of a batch, in the order in which the drain makes them.
abbrev pub batch_plans : List EventInbox → (EventInbox → List DeliveryPlan) → List DeliveryPlan
batch_plans [] plans_for = []
batch_plans (row ∷ rows) plans_for = plans_for row ++ batch_plans rows plans_for

funext_ids : (f g : ℕ → String) → ((n : ℕ) → f n ≡ g n) → f ≡ g
funext_ids f g h = λ i n. h n i

shift_zero : (ids : ℕ → String) → ids ≡ shifted 0 ids
shift_zero ids = funext_ids ids (shifted 0 ids) (λ n. ap ids (omega arith))

shift_suc : (ids : ℕ → String) (k : ℕ) → shifted k (λ n. ids (n + 1)) ≡ shifted (suc k) ids
shift_suc ids k =
    funext_ids (shifted k (λ n. ids (n + 1))) (shifted (suc k) ids) (λ n. ap ids (omega arith))

module _ (plans_for : EventInbox → List DeliveryPlan) (tenant project : String) (now : ℕ) where
  drain-keeps :
      (rows : List EventInbox) (ids : ℕ → String) (db : DrainTables) (k : InboxKey)
      → IsDone db.inbox k
      → IsDone (drain_to_jobs rows plans_for tenant project ids now db).inbox k
  unfolding drain_to_jobs
  drain-keeps [] ids db k h = h
  drain-keeps (row ∷ rows) ids db k h =
      drain-keeps rows (shifted (length (plans_for row)) ids) _ k (mark-keeps row db.inbox k h)

  drain-All :
      (rows : List EventInbox) (ids : ℕ → String) (db : DrainTables)
      → All
          (λ (row : EventInbox).
            IsDone (drain_to_jobs rows plans_for tenant project ids now db).inbox (row_key row))
          rows
  unfolding drain_to_jobs
  drain-All [] ids db = tt
  drain-All (row ∷ rows) ids db = (
    drain-keeps rows (shifted (length (plans_for row)) ids) _ (row_key row)
        (mark-IsDone row db.inbox),
    drain-All rows (shifted (length (plans_for row)) ids) _,
  )

  insert_plans-append :
      (ps qs : List DeliveryPlan) (ids : ℕ → String) (jobs : Jobs)
      → insert_plans (ps ++ qs) tenant project ids now jobs
        ≡ insert_plans qs tenant project
            (shifted (length ps) ids)
            now
            (insert_plans ps tenant project ids now jobs)
  unfolding insert_plans
  insert_plans-append [] qs ids jobs =
      ap (λ (f : ℕ → String). insert_plans qs tenant project f now jobs) (shift_zero ids)
  insert_plans-append (p ∷ ps) qs ids jobs =
      let jobs' = (create_from_plan p tenant project (ids 0) now jobs).1 in
      insert_plans-append ps qs (λ n. ids (n + 1)) jobs'
      ∙ ap
          (λ (f : ℕ → String).
            insert_plans qs tenant project f now
              (insert_plans ps tenant project (λ n. ids (n + 1)) now jobs'))
          (shift_suc ids (length ps))

  drain-jobs :
      (rows : List EventInbox) (ids : ℕ → String) (db : DrainTables)
      → (drain_to_jobs rows plans_for tenant project ids now db).jobs
        ≡ insert_plans (batch_plans rows plans_for) tenant project ids now db.jobs
  unfolding drain_to_jobs insert_plans
  drain-jobs [] ids db = refl
  drain-jobs (row ∷ rows) ids db =
      drain-jobs rows (shifted (length (plans_for row)) ids) _
      ∙ sym (insert_plans-append (plans_for row) (batch_plans rows plans_for) ids db.jobs)

-- A drain leaves every row of its batch processed, and the jobs that come of inserting the plans of
-- all rows, in the order of the rows.
pub drain_to_jobs-drains :
    (rows : List EventInbox) (plans_for : EventInbox → List DeliveryPlan) (tenant project : String)
    (ids : ℕ → String) (now : ℕ) (db : DrainTables)
    → let db' = drain_to_jobs rows plans_for tenant project ids now db in
      All (λ (row : EventInbox). IsDone db'.inbox (row_key row)) rows
      × (db'.jobs ≡ insert_plans (batch_plans rows plans_for) tenant project ids now db.jobs)
drain_to_jobs-drains rows plans_for tenant project ids now db = (
  drain-All plans_for tenant project now rows ids db,
  drain-jobs plans_for tenant project now rows ids db,
)
