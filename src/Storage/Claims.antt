-- ===== src/Storage/Claims.antt =====
-- What claiming promises (runtime/storage/repos.py, DeliveryJobRepository.claim_next).
use tdaudiibncba.Common.{
  some_inj, none≢some, ℕ, ◌+◌, String, ◌≡◌, ◌≢◌, refl, sym, ap, subst, ◌∙◌, inl, inr, true, false,
  some, List, [], ◌∷◌, ◌==◌, Memᴰ, string_eq, nat_eq, Bool-cases, Option-cases, eq_of_beq,
  ne_of_beq,
}
use tdaudiibncba.Common.Dict
use tdaudiibncba.Common.Dict.{Dict, get-put, get-put_cases}
use tdaudiibncba.Delivery.Status.{JobStatus, status_eq}
use tdaudiibncba.Storage.Jobs.{DeliveryJob, Jobs, guarded}
use tdaudiibncba.Storage.Claiming.{
  JobTables, Claim, in_future, leased_at, number_taken, claimed, claim_from,
}
use tdaudiibncba.Storage.Claimed.{get-own, IsFiled, ClaimedFrom, Passes, Claims, later_candidate}

module _ (c : DeliveryJob) (cs : List DeliveryJob) (generation now : ℕ) (db : JobTables) where
  takes :
      (row : DeliveryJob) (rest : Claim × JobTables)
      → in_future c.next_attempt_at now ≡ false
      → in_future c.flood_wait_until now ≡ false
      → Dict.get db.jobs c.id ≡ some row
      → row.status ≡ JobStatus.ready
      → Claims (c ∷ cs) generation now db (
          claimed
            (true, Dict.put db.jobs c.id (leased_at (c.attempt_count + 1) now row))
            c
            generation
            now
            db
            rest)
  takes row rest due flood e ready =
      let job = leased_at (c.attempt_count + 1) now row in
      elim (Bool-cases (number_taken c.id (c.attempt_count + 1) db.attempts)) [
        | inl again ↦ rw again (
          refl,
          record {
            candidate = c;
            listed = Memᴰ.head refl;
            due = due;
            unflooded = flood;
            row = row;
            found = e;
            was_ready = ready;
            is_taken = again;
          },
        )
        | inr new ↦
            rw (new, get-own db.jobs c.id job)
              (record {
                candidate = c;
                listed = Memᴰ.head refl;
                due = due;
                unflooded = flood;
                row = row;
                found = e;
                was_ready = ready;
                is_leased = refl;
                stored = refl;
                is_new = new;
                recorded = refl;
              })
      ]

pub claim_from-Claims :
    (cs : List DeliveryJob) (generation now : ℕ) (db : JobTables)
    → Claims cs generation now db (claim_from cs generation now db)
unfolding claim_from guarded
claim_from-Claims [] generation now db = (refl, λ c m. elim m [ ])
claim_from-Claims (c ∷ cs) generation now db =
    let found = claim_from-Claims cs generation now db in
    let rest : Passes now db c
        → Claims (c ∷ cs) generation now db (claim_from cs generation now db) =
      λ p. later_candidate c cs generation now db (claim_from cs generation now db) p found in
    elim (Bool-cases (in_future c.next_attempt_at now)) [
      | inl waits ↦ rw waits (rest (inl waits))
      | inr due ↦ elim (Bool-cases (in_future c.flood_wait_until now)) [
        | inl flooded ↦ rw (due, flooded) (rest (inr (inl flooded)))
        | inr unflooded ↦ elim (Option-cases (Dict.get db.jobs c.id)) [
          | inl e ↦
              rw (due, unflooded, e) (rest (inr (inr (λ row h. absurd (none≢some (sym e ∙ h))))))
          | inr (row, e) ↦ elim (Bool-cases (row.status == JobStatus.ready)) [
            | inr lost ↦
                rw (due, unflooded, e, lost)
                  (rest (
                    inr (
                      inr (λ r h s.
                        ne_of_beq row.status JobStatus.ready lost
                          (ap (λ (j : DeliveryJob). j.status) (some_inj (sym e ∙ h)) ∙ s)))))
            | inl ready ↦
                rw (due, unflooded, e, ready)
                  (takes c cs generation now db row (claim_from cs generation now db) due unflooded
                    e (eq_of_beq row.status JobStatus.ready ready))
          ]
        ]
      ]
    ]

leased≢ready : JobStatus.leased ≢ JobStatus.ready
leased≢ready p = cc

won_inj : {j k : DeliveryJob} → Claim.won j ≡ Claim.won k → j ≡ k
won_inj e = cc

pub claim_of :
    (cs : List DeliveryJob) (generation now : ℕ) (db : JobTables) (r : Claim × JobTables)
    (job : DeliveryJob)
    → Claims cs generation now db r
    → r.0 ≡ Claim.won job
    → ClaimedFrom cs generation now db job r.1
claim_of cs generation now db (Claim.nothing, db') job h e = cc
claim_of cs generation now db (Claim.raised, db') job h e = cc
claim_of cs generation now db (Claim.won j, db') job h e =
    subst (λ (x : DeliveryJob). ClaimedFrom cs generation now db x db') (won_inj e) h

pub put-IsFiled :
    (jobs : Jobs) (id : String) (job : DeliveryJob)
    → job.id ≡ id
    → IsFiled jobs
    → IsFiled (Dict.put jobs id job)
put-IsFiled jobs id job e f = record {
  own = λ i j h. elim (get-put_cases jobs id i job j h) [
    | inl (p, q) ↦ ap (λ (x : DeliveryJob). x.id) (sym q) ∙ e ∙ p
    | inr (p, q) ↦ f.own i j q
  ];
}

module _ {cs : List DeliveryJob} {generation now : ℕ} (db : JobTables) (job : DeliveryJob)
    (db' : JobTables) where
  pub IsFiled-after : ClaimedFrom cs generation now db job db' → IsFiled db.jobs → IsFiled db'.jobs
  IsFiled-after c f =
      let own : job.id ≡ c.candidate.id =
        ap (λ (j : DeliveryJob). j.id) c.is_leased ∙ f.own c.candidate.id c.row c.found in
      rw (c.stored) (put-IsFiled db.jobs c.candidate.id job own f)

-- No job is claimed twice: where the jobs are filed under their ids, of two claims in a row that
-- each get a job, by whatever workers and from candidates read at whatever times, the second one
-- gets another job.
pub claim_from_distinct :
    (cs cs' : List DeliveryJob) (generation generation' now now' : ℕ) (db : JobTables)
    (job job' : DeliveryJob)
    → IsFiled db.jobs
    → (claim_from cs generation now db).0 ≡ Claim.won job
    → (claim_from cs' generation' now' (claim_from cs generation now db).1).0 ≡ Claim.won job'
    → job'.id ≢ job.id
claim_from_distinct cs cs' generation generation' now now' db job job' filed first second same =
    let db' = (claim_from cs generation now db).1 in
    let c =
      claim_of cs generation now db (claim_from cs generation now db) job
        (claim_from-Claims cs generation now db) first in
    let d =
      claim_of cs' generation' now' db' (claim_from cs' generation' now' db') job'
        (claim_from-Claims cs' generation' now' db') second in
    let own : job.id ≡ c.candidate.id =
      ap (λ (j : DeliveryJob). j.id) c.is_leased ∙ filed.own c.candidate.id c.row c.found in
    let stored : Dict.get db'.jobs c.candidate.id ≡ some job =
      ap (λ (jobs : Jobs). Dict.get jobs c.candidate.id) c.stored
      ∙ get-own db.jobs c.candidate.id job in
    let filed' : d.row.id ≡ d.candidate.id =
      (IsFiled-after db job db' c filed).own d.candidate.id d.row d.found in
    let at : d.candidate.id ≡ c.candidate.id =
      sym filed' ∙ sym (ap (λ (j : DeliveryJob). j.id) d.is_leased) ∙ same ∙ own in
    let row : d.row ≡ job = some_inj (sym (ap (Dict.get db'.jobs) (sym at) ∙ d.found) ∙ stored) in
    leased≢ready (sym (ap (λ (j : DeliveryJob). j.status) (row ∙ c.is_leased)) ∙ d.was_ready)
