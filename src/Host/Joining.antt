-- ===== src/Host/Joining.antt =====
-- Who is hosted after accounts were taken on (runtime/worker/host.py, _assign and reconcile).
use tdaudiibncba.Common.{
  ℕ, String, ◌≡◌, refl, sym, ◌∙◌, ◌⊎◌, inl, inr, Bool, true, false, Option, none, some, [], ◌∷◌,
  ◌==◌, is_some, string_eq, both_branches, Bool-cases,
}
use tdaudiibncba.Common.Dict
use tdaudiibncba.Common.Dict.{Dict, get-put, get-remove}
use tdaudiibncba.Storage.Leases.{acquire}
use tdaudiibncba.Host.State.{
  Assignment, Hosted, Host, Pulled, rows, refused, broke, report_status, refresh_rules,
}
use tdaudiibncba.Host.Assigning.{
  World, Answers, hosted_after, connected, with_lease, assign, and_then, assign_new, assign_all,
}
use tdaudiibncba.Host.Alignment.{get-put_other}
use tdaudiibncba.Host.Invariant.{IsKeyed}

-- Who may be hosted after an account was taken on.
abbrev pub Joins : String → Host → Host → Type 0
Joins id before after =
    (after.lost ≡ before.lost)
    × ((a : String) (x : Hosted)
        → Dict.get after.hosted a ≡ some x
        → (Dict.get before.hosted a ≡ some x) ⊎ ((id == a) ≡ true))

refreshed_same :
    (p : Pulled) (a : Assignment) (now : ℕ) (h : Host)
    → ((refresh_rules p a now h).1.hosted ≡ h.hosted) × ((refresh_rules p a now h).1.lost ≡ h.lost)
unfolding refresh_rules
refreshed_same (rows rs) a now h = (refl, refl)
refreshed_same refused a now h = (refl, refl)
refreshed_same broke a now h = (refl, refl)

hosted_after-Joins :
    (r : Bool × Host) (a : Assignment) (generation : ℕ) (h : Host)
    → r.1.hosted ≡ h.hosted
    → r.1.lost ≡ h.lost
    → Joins a.account_id h (hosted_after r a generation).1
unfolding report_status
hosted_after-Joins (true, h') a generation h e l = (l, λ b x f. inl (rw (← e) f))
hosted_after-Joins (false, h') a generation h e l = (
  l,
  λ b x f. elim (Bool-cases (a.account_id == b)) [
    | inl p ↦ inr p
    | inr p ↦ inl (rw (← e) (sym (get-put_other h'.hosted a.account_id b _ p) ∙ f))
  ],
)

connected-Joins :
    (error : Option String) (ans : Answers) (a : Assignment) (generation : ℕ) (h : Host)
    → Joins a.account_id h (connected error ans a generation h).1
unfolding report_status
connected-Joins (some e) ans a generation h = (refl, λ b x f. inl f)
connected-Joins none ans a generation h =
    let (e, l) = refreshed_same (ans.rules a.api_row_id) a ans.now _ in
    hosted_after-Joins _ a generation h e l

with_lease-Joins :
    (generation : Option ℕ) (ans : Answers) (a : Assignment) (h : Host)
    → Joins a.account_id h (with_lease generation ans a h).1
with_lease-Joins none ans a h = (refl, λ b x f. inl f)
with_lease-Joins (some g) ans a h = connected-Joins (ans.connects a.account_id) ans a g h

module _ (worker_id : String) (ttl : ℕ) where
  assign-Joins :
      (ans : Answers) (a : Assignment) (w : World)
      → Joins a.account_id w.host (assign worker_id ttl ans a w).1.host
  unfolding assign
  assign-Joins ans a w =
      both_branches (λ (r : Bool × World). Joins a.account_id w.host r.1.host) a.has_session _
        (false, w)
        (with_lease-Joins (acquire a.account_id worker_id ttl ans.now w.leases).0 ans a w.host)
        (refl, λ b x f. inl f)

  assign_new-Joins :
      (b : Bool) (ans : Answers) (a : Assignment) (w : World)
      → Joins a.account_id w.host (assign_new worker_id ttl b ans a w).1.host
  assign_new-Joins true ans a w = (refl, λ b x f. inl f)
  assign_new-Joins false ans a w = assign-Joins ans a w

  -- Who is hosted after all desired accounts were gone through.
  unfoldable pub Grows : Dict String Assignment → Host → Host → Type 0
  Grows desired before after =
      (after.lost ≡ before.lost)
      × ((a : String) (x : Hosted)
          → Dict.get after.hosted a ≡ some x
          → (Dict.get before.hosted a ≡ some x) ⊎ (is_some (Dict.get desired a) ≡ true))

  key_first :
      (id a : String) (b : Assignment) (desired : Dict String Assignment)
      → (id == a) ≡ true
      → is_some (Dict.get ((id, b) ∷ desired) a) ≡ true
  unfolding Dict.get
  key_first id a b desired p = rw p

  key_later :
      (id a : String) (b : Assignment) (desired : Dict String Assignment)
      → is_some (Dict.get desired a) ≡ true
      → is_some (Dict.get ((id, b) ∷ desired) a) ≡ true
  unfolding Dict.get
  key_later id a b desired h = elim (Bool-cases (id == a)) [ inl p ↦ rw p | inr p ↦ rw p h ]

  step-Grows :
      (ans : Answers) (id : String) (b : Assignment) (desired : Dict String Assignment) (h : Host)
      (r : Bool × World)
      → Joins id h r.1.host
      → ((w : World) → Grows desired w.host (assign_all worker_id ttl ans desired w).1.host)
      → Grows ((id, b) ∷ desired) h (and_then r (assign_all worker_id ttl ans desired)).1.host
  unfolding Grows
  step-Grows ans id b desired h (true, w) joins ih = (
    joins.0,
    λ a x f. elim (joins.1 a x f) [ inl e ↦ inl e | inr p ↦ inr (key_first id a b desired p) ],
  )
  step-Grows ans id b desired h (false, w) joins ih = (
    (ih w).0 ∙ joins.0,
    λ a x f. elim ((ih w).1 a x f) [
      | inr k ↦ inr (key_later id a b desired k)
      | inl e ↦ elim (joins.1 a x e) [ inl e' ↦ inl e' | inr p ↦ inr (key_first id a b desired p) ]
    ],
  )

  pub assign_all-Grows :
      (ans : Answers) (desired : Dict String Assignment) (w : World)
      → IsKeyed desired
      → Grows desired w.host (assign_all worker_id ttl ans desired w).1.host
  unfolding assign_all IsKeyed Grows
  assign_all-Grows ans [] w keyed = (refl, λ a x f. inl f)
  assign_all-Grows ans ((id, b) ∷ desired) w keyed =
      step-Grows ans id b desired w.host
        (assign_new worker_id ttl (is_some (Dict.get w.host.hosted id)) ans b w)
        (rw (keyed.0) (assign_new-Joins (is_some (Dict.get w.host.hosted b.account_id)) ans b w))
        (λ w'. assign_all-Grows ans desired w' keyed.1)
