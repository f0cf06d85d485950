-- ===== src/Delivery/Effects.antt =====
-- Which calls the executor makes and what it reports of them (runtime/delivery/executor.py).
use tdaudiibncba.Common.{
  ℕ, ℤ, String, ◌≡◌, ◌≢◌, refl, sym, ap, ◌∙◌, ◌⊎◌, inl, inr, Option, none, some, List, [], ◌∷◌,
  Memᴰ,
}
use tdaudiibncba.Planner.Model.{PlanKind, DeliveryPlan}
use tdaudiibncba.Delivery.Errors.{ErrorClass}
use tdaudiibncba.Delivery.Policy.{Decision, LiveAccount, PolicySnapshot, ApprovalRecord, check}
use tdaudiibncba.Delivery.Executor.{
  Call, Outcome, TransportErrorKind, SendTransport, DeliveryResult, ResultStatus, Execution, result,
  raised, error_class_map, class_status, failure, after, ids_of, run_edit, run_delete, run_plan,
  checkable, after_check, execute,
}

-- A call serves the plan: a message of its own kind, with the mapped target ids.
abbrev pub Serves : DeliveryPlan → List ℤ → Call → Type 0
Serves plan ids (Call.send p) = (p ≡ plan) × (plan.kind ≡ PlanKind.send)
Serves plan ids (Call.edit p i) =
    (p ≡ plan) × (plan.kind ≡ PlanKind.edit) × ((others : List ℤ) × (ids ≡ i ∷ others))
Serves plan ids (Call.delete p targets) =
    (p ≡ plan)
    × ((plan.kind ≡ PlanKind.delete) ⊎ (plan.kind ≡ PlanKind.tombstone))
    × (targets ≡ ids)
    × (ids ≢ [])

-- A result of the executor, by its fields.
abbrev pub answer :
    DeliveryPlan
    → ResultStatus
    → List ℤ
    → Option ErrorClass
    → Option String
    → Option ℕ
    → Decision
    → Execution
answer plan status ids error_class detail until decision = result (record {
  plan = plan;
  status = status;
  target_message_ids = ids;
  error_class = error_class;
  error_detail = detail;
  flood_wait_until = until;
  decision = some decision;
})

-- The result that carries a refusal of the gate.
abbrev pub refusal : DeliveryPlan → Decision → Execution
refusal plan d = answer plan ResultStatus.policy_denied [] none none none d

-- The status and the error class of each kind of failure.
abbrev pub told : TransportErrorKind → ResultStatus × ErrorClass
told TransportErrorKind.flood_wait = (ResultStatus.retryable, ErrorClass.flood_wait)
told TransportErrorKind.transient = (ResultStatus.retryable, ErrorClass.transient)
told TransportErrorKind.result_unknown = (ResultStatus.uncertain, ErrorClass.result_unknown)
told TransportErrorKind.permission = (ResultStatus.blocked, ErrorClass.permission_blocked)
told TransportErrorKind.content = (ResultStatus.failed, ErrorClass.content_invalid)
told TransportErrorKind.auth = (ResultStatus.failed, ErrorClass.auth_dead)

-- What is reported of a call that came back: the ids of a sent message, or the mapped targets.
abbrev pub reported : Call → List ℤ → List ℤ → List ℤ
reported (Call.send p) ids sent = sent
reported (Call.edit p i) ids sent = ids
reported (Call.delete p targets) ids sent = ids

-- The result after a call, by what the call came back with.
abbrev pub CameBack : DeliveryPlan → List ℤ → Call → Outcome → Execution → Type 0
CameBack plan ids c (Outcome.returned sent) e =
    e ≡ answer plan ResultStatus.succeeded (reported c ids sent) none none none Decision.allow
CameBack plan ids c (Outcome.failed exc) e =
    e
    ≡ answer plan (told exc.kind).0 [] (some (told exc.kind).1) (some exc.detail)
        exc.flood_wait_until Decision.allow
CameBack plan ids c (Outcome.crashed x) e = e ≡ raised x

-- An edit without a mapped target fails, and a deletion without one has nothing to do.
abbrev pub Uncalled : DeliveryPlan → List ℤ → Execution → Type 0
Uncalled plan ids e =
    (ids ≡ [])
    × (((plan.kind ≡ PlanKind.edit)
          × (e
              ≡ answer plan ResultStatus.failed [] (some ErrorClass.content_invalid)
                  (some "no mapped target message") none Decision.allow))
        ⊎ (((plan.kind ≡ PlanKind.delete) ⊎ (plan.kind ≡ PlanKind.tombstone))
            × (e ≡ answer plan ResultStatus.succeeded [] none none none Decision.allow)))

-- What the result says of the one call, or why there was none.
abbrev pub Reports : SendTransport → DeliveryPlan → List ℤ → Execution → List Call → Type 0
Reports transport plan ids e [] = Uncalled plan ids e
Reports transport plan ids e (c ∷ []) = Serves plan ids c × CameBack plan ids c (transport c) e
Reports transport plan ids e (c ∷ d ∷ cs) = ⊥

result≢raised : {r : DeliveryResult} {e : String} → result r ≢ raised e
result≢raised p = cc

failure-told :
    (plan : DeliveryPlan) (k : TransportErrorKind) (d : String) (u : Option ℕ)
    → failure plan (record { kind = k; detail = d; flood_wait_until = u })
      ≡ answer plan (told k).0 [] (some (told k).1) (some d) u Decision.allow
unfolding failure class_status error_class_map
failure-told plan TransportErrorKind.flood_wait d u = refl
failure-told plan TransportErrorKind.transient d u = refl
failure-told plan TransportErrorKind.result_unknown d u = refl
failure-told plan TransportErrorKind.permission d u = refl
failure-told plan TransportErrorKind.content d u = refl
failure-told plan TransportErrorKind.auth d u = refl

after-CameBack :
    (plan : DeliveryPlan) (ids : List ℤ) (c : Call) (o : Outcome)
    → CameBack plan ids c o (after plan (reported c ids) o)
after-CameBack plan ids c (Outcome.returned sent) = refl
after-CameBack plan ids c (Outcome.failed exc) =
    failure-told plan exc.kind exc.detail exc.flood_wait_until
after-CameBack plan ids c (Outcome.crashed x) = refl

module _ (transport : SendTransport) where
  edit-Reports :
      (plan : DeliveryPlan) (ids : List ℤ)
      → plan.kind ≡ PlanKind.edit
      → Reports transport plan ids (run_edit transport plan ids).0 (run_edit transport plan ids).1
  unfolding run_edit
  edit-Reports plan [] k = (refl, inl (k, refl))
  edit-Reports plan (i ∷ is) k = (
    (refl, k, (is, refl)),
    after-CameBack plan (i ∷ is) (Call.edit plan i) (transport (Call.edit plan i)),
  )

  delete-Reports :
      (plan : DeliveryPlan) (ids : List ℤ)
      → (plan.kind ≡ PlanKind.delete) ⊎ (plan.kind ≡ PlanKind.tombstone)
      → Reports transport plan ids
          (run_delete transport plan ids).0
          (run_delete transport plan ids).1
  unfolding run_delete
  delete-Reports plan [] k = (refl, inr (k, refl))
  delete-Reports plan (i ∷ is) k = (
    (refl, k, refl, λ e. cc),
    after-CameBack plan (i ∷ is) (Call.delete plan (i ∷ is))
        (transport (Call.delete plan (i ∷ is))),
  )

  plan-Reports :
      (kind : PlanKind) (plan : DeliveryPlan) (ids : List ℤ)
      → plan.kind ≡ kind
      → Reports transport plan ids
          (run_plan transport kind plan ids).0
          (run_plan transport kind plan ids).1
  unfolding run_plan
  plan-Reports PlanKind.send plan ids k =
      ((refl, k), after-CameBack plan ids (Call.send plan) (transport (Call.send plan)))
  plan-Reports PlanKind.edit plan ids k = edit-Reports plan ids k
  plan-Reports PlanKind.delete plan ids k = delete-Reports plan ids (inl k)
  plan-Reports PlanKind.tombstone plan ids k = delete-Reports plan ids (inr k)

  pub gated :
      (plan : DeliveryPlan) (ids : Option (List ℤ)) (d : Decision)
      → ((d ≢ Decision.allow) × (after_check transport d plan ids ≡ (refusal plan d, [])))
        ⊎ ((d ≡ Decision.allow)
            × Reports transport plan
                (ids_of ids)
                (after_check transport d plan ids).0
                (after_check transport d plan ids).1)
  gated plan ids Decision.allow = inr (refl, plan-Reports plan.kind plan (ids_of ids) refl)
  gated plan ids _ = inl ((λ e. cc), refl)

  crash_of_outcome :
      (plan : DeliveryPlan) (ids : List ℤ) (c : Call) (o : Outcome) (x : Execution) (e : String)
      → CameBack plan ids c o x
      → x ≡ raised e
      → o ≡ Outcome.crashed e
  crash_of_outcome plan ids c (Outcome.returned sent) x e b h = absurd (result≢raised (sym b ∙ h))
  crash_of_outcome plan ids c (Outcome.failed exc) x e b h = absurd (result≢raised (sym b ∙ h))
  crash_of_outcome plan ids c (Outcome.crashed d) x e b h = cc

  crash_of_report :
      (plan : DeliveryPlan) (ids : List ℤ) (x : Execution) (calls : List Call)
      → Reports transport plan ids x calls
      → (e : String) → x ≡ raised e
      → (c : Call) × Memᴰ c calls × (transport c ≡ Outcome.crashed e)
  crash_of_report plan ids x [] (_, inl (_, p)) e h = absurd (result≢raised (sym p ∙ h))
  crash_of_report plan ids x [] (_, inr (_, p)) e h = absurd (result≢raised (sym p ∙ h))
  crash_of_report plan ids x (c ∷ []) (_, b) e h =
      (c, Memᴰ.head refl, crash_of_outcome plan ids c (transport c) x e b h)
  crash_of_report plan ids x (c ∷ d ∷ cs) r e h = elim r [ ]

  module _ (plan : DeliveryPlan) (live : LiveAccount) (policy : PolicySnapshot)
      (approval : Option ApprovalRecord) (generation : ℕ) (tenant project : String) (now : ℕ)
      (ids : Option (List ℤ)) where
    abbrev gate : Decision
    gate = check (checkable transport plan generation tenant project) live policy approval now

    abbrev run : Execution × List Call
    run = execute transport plan live policy approval generation tenant project now ids

    -- Where the gate refuses, nothing is sent and the result carries the refusal. Where it opens, the
    -- executor makes at most one call, of the plan's own kind and on its mapped targets, and reports it:
    -- a call that returns is a success with the ids of the sent message or with the mapped targets, a
    -- failure has the status and the error class of its kind and no ids, and another exception leaves
    -- the executor. No call is made only without a mapped target: an edit then fails with
    -- `content_invalid`, and a deletion succeeds.
    pub execute_gated :
        ((gate ≢ Decision.allow) × (run ≡ (refusal plan gate, [])))
        ⊎ ((gate ≡ Decision.allow) × Reports transport plan (ids_of ids) run.0 run.1)
    unfolding execute
    execute_gated = gated plan ids gate

    -- An exception leaves the executor only if the transport crashed: the handler finds a status for
    -- every `TransportError`.
    pub execute_raises :
        (e : String)
        → run.0 ≡ raised e
        → (c : Call) × Memᴰ c run.1 × (transport c ≡ Outcome.crashed e)
    execute_raises e h = elim execute_gated [
      | inl (_, q) ↦ absurd (result≢raised (sym (ap (λ (x : Execution × List Call). x.0) q) ∙ h))
      | inr (_, r) ↦ crash_of_report plan (ids_of ids) run.0 run.1 r e h
    ]
