-- ===== src/Host/Convergence.antt =====
-- What a host has after it has reconciled (runtime/worker/host.py, reconcile).
use tdaudiibncba.Common.{
  true≢false, ℕ, String, ◌≡◌, refl, sym, ap, ◌∙◌, ◌⊎◌, inl, inr, Bool, true, false, some, List, [],
  ◌∷◌, ◌==◌, Memᴰ, is_some, contains, string_eq, Bool-cases, eq_of_beq,
}
use tdaudiibncba.Common.Dict
use tdaudiibncba.Common.Dict.{Dict, get-put, get-remove}
use tdaudiibncba.Host.State.{Assignment, Hosted}
use tdaudiibncba.Host.Assigning.{
  World, with_host, Answers, and_then, desired_of, release_each, undesired, lost_hosted,
  release_lost, follow, reconcile,
}
use tdaudiibncba.Host.Alignment.{get-put_other}
use tdaudiibncba.Host.Invariant.{IsKeyed, desired_of-IsKeyed}
use tdaudiibncba.Host.Departures.{stays, release_each_lost, wanted_of, listed_lost}
use tdaudiibncba.Host.Joining.{Grows, assign_all-Grows}

-- An account that the control plane's answer names.
abbrev pub IsNamed : List Assignment → String → Type 0
IsNamed wanted a = (x : Assignment) × Memᴰ x wanted × (x.account_id ≡ a)

put_key :
    (d : Dict String Assignment) (k a : String) (b : Assignment)
    → is_some (Dict.get (Dict.put d k b) a) ≡ true
    → ((k == a) ≡ true) ⊎ (is_some (Dict.get d a) ≡ true)
put_key d k a b h = elim (Bool-cases (k == a)) [
  | inl p ↦ inl p
  | inr p ↦ inr (ap is_some (sym (get-put_other d k a b p)) ∙ h)
]

under_own_name :
    (wanted : List Assignment) (d : Dict String Assignment) (a : String)
    → is_some (Dict.get (desired_of wanted d) a) ≡ true
    → IsNamed wanted a ⊎ (is_some (Dict.get d a) ≡ true)
unfolding desired_of
under_own_name [] d a h = inr h
under_own_name (b ∷ wanted) d a h = elim (under_own_name wanted (Dict.put d b.account_id b) a h) [
  | inl (x, m, e) ↦ inl (x, Memᴰ.tail m, e)
  | inr k ↦ elim (put_key d b.account_id a b k) [
    | inl p ↦ inl (b, Memᴰ.head refl, eq_of_beq b.account_id a p)
    | inr p ↦ inr p
  ]
]

named :
    (wanted : List Assignment) (a : String)
    → is_some (Dict.get (desired_of wanted []) a) ≡ true
    → IsNamed wanted a
unfolding Dict.get
named wanted a h = elim (under_own_name wanted [] a h) [ inl n ↦ n | inr f ↦ cc ]

module _ (worker_id : String) (ttl : ℕ) where
  ends_with :
      (wanted : List Assignment) (r : Bool × World) (lost : List String) (a : String) (x : Hosted)
      → (and_then r release_lost).0 ≡ false
      → r.1.host.lost ≡ lost
      → ((x : Hosted) → Dict.get r.1.host.hosted a ≡ some x → IsNamed wanted a)
      → Dict.get (and_then r release_lost).1.host.hosted a ≡ some x
      → IsNamed wanted a × (contains lost a ≡ false)
  unfolding release_lost
  ends_with wanted (true, w) lost a x ok l f e = cc
  ends_with wanted (false, w) lost a x ok l f e =
      let (before, out) = stays (lost_hosted w.host.hosted w.host.lost) "lease_lost" w.host a x e in
      (
        f x before,
        elim (Bool-cases (contains lost a)) [
          | inl p ↦
              absurd
                (true≢false (sym (listed_lost w.host.hosted w.host.lost a x before (rw l p)) ∙ out))
          | inr p ↦ p
        ],
      )

  -- A host follows the control plane: where it answers and no exception leaves `reconcile`, every
  -- account that is hosted afterwards is named in the answer, and was not reported lost before,
  -- whichever leases are won and whichever sessions connect.
  pub reconcile_follows :
      (wanted : List Assignment) (ans : Answers) (w : World) (a : String) (x : Hosted)
      → (reconcile worker_id ttl (some wanted) ans w).0 ≡ false
      → Dict.get (reconcile worker_id ttl (some wanted) ans w).1.host.hosted a ≡ some x
      → IsNamed wanted a × (contains w.host.lost a ≡ false)
  unfolding reconcile follow Grows IsKeyed
  reconcile_follows wanted ans w a x ok e =
      let desired = desired_of wanted [] in
      let ids = undesired w.host.hosted desired in
      let h = release_each ids "unassigned" w.host in
      let grown =
        assign_all-Grows worker_id ttl ans desired (with_host w h)
          (desired_of-IsKeyed wanted [] tt) in
      ends_with wanted (follow worker_id ttl ans desired w) w.host.lost a x ok
        (grown.0 ∙ release_each_lost ids "unassigned" w.host)
        (λ y f. named wanted a (elim (grown.1 a y f) [
          | inl e' ↦
              let (before, out) = stays ids "unassigned" w.host a y e' in
              wanted_of w.host.hosted desired a y before out
          | inr k ↦ k
        ]))
        e
