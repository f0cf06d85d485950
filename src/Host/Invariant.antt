-- ===== src/Host/Invariant.antt =====
-- Every operation of the host keeps its tables in step (runtime/worker/host.py).
use tdaudiibncba.Common.{
  ℕ, String, ◌≡◌, refl, sym, ap, inl, inr, Bool, true, false, Option, none, some, List, [], ◌∷◌,
  ◌==◌, is_some, both_branches, string_eq, nat_eq, Bool-cases, beq_refl, eq_of_beq,
}
use tdaudiibncba.Common.Dict
use tdaudiibncba.Common.Dict.{Dict}
use tdaudiibncba.Storage.Leases.{acquire}
use tdaudiibncba.Host.Registry.{register, drop}
use tdaudiibncba.Host.State.{
  Assignment, Hosted, Host, Pulled, rows, refused, broke, report_status, refresh_rules,
  release_runner,
}
use tdaudiibncba.Host.Assigning.{
  World, Answers, let_go, release, hosted_after, connected, with_lease, assign, and_then,
  assign_new, assign_all, desired_of, release_each, undesired, lost_hosted, release_lost, follow,
  follow_answer, reconcile,
}
use tdaudiibncba.Host.Alignment.{
  Aligned, remove-IsAligned, register-IsAligned, host-IsAligned, get-put_same,
}

let_go-Aligned :
    (o : Option Hosted) (reason : String) (h : Host) → Aligned h → Aligned (let_go o reason h)
unfolding report_status
let_go-Aligned none reason h al = al
let_go-Aligned (some x) reason h al = both_branches Aligned (reason == "lease_lost") h _ al al

pub release-Aligned :
    (account_id reason : String) (h : Host) → Aligned h → Aligned (release account_id reason h)
unfolding release release_runner drop
release-Aligned account_id reason h al =
    let_go-Aligned (Dict.get h.hosted account_id) reason _
      (remove-IsAligned h.hosted h.runners h.routes h.registry account_id al)

release_each-Aligned :
    (ids : List String) (reason : String) (h : Host)
    → Aligned h
    → Aligned (release_each ids reason h)
unfolding release_each
release_each-Aligned [] reason h al = al
release_each-Aligned (id ∷ ids) reason h al =
    release_each-Aligned ids reason (release id reason h) (release-Aligned id reason h al)

pub refresh-Aligned :
    (p : Pulled) (a : Assignment) (now : ℕ) (h : Host)
    → Aligned h
    → Aligned (refresh_rules p a now h).1
unfolding refresh_rules
refresh-Aligned (rows rs) a now h al = al
refresh-Aligned refused a now h al = al
refresh-Aligned broke a now h al = al

-- The tables right after the account was registered, which `_refresh_rules` leaves alone.
refresh-hosted :
    (p : Pulled) (a : Assignment) (generation now : ℕ) (h : Host)
    → Dict.get h.hosted a.account_id ≡ none
    → Aligned h
    → Aligned
        (hosted_after
          (refresh_rules p a now (record h {
            registry = register a.account_id generation h.registry;
            routes = Dict.put h.routes a.account_id a.account_id;
          }))
          a
          generation).1
unfolding refresh_rules report_status register
refresh-hosted broke a generation now h free al =
    register-IsAligned h.hosted h.runners h.routes h.registry a.account_id generation a.account_id
      free al
refresh-hosted refused a generation now h free al =
    host-IsAligned h.hosted h.runners (Dict.put h.routes a.account_id a.account_id)
      (register a.account_id generation h.registry) a.account_id generation _ _
      (get-put_same h.registry a.account_id a.account_id _ (beq_refl a.account_id)) refl refl
      (get-put_same h.routes a.account_id a.account_id _ (beq_refl a.account_id))
      (register-IsAligned h.hosted h.runners h.routes h.registry a.account_id generation
        a.account_id free al)
refresh-hosted (rows rs) a generation now h free al =
    host-IsAligned h.hosted h.runners (Dict.put h.routes a.account_id a.account_id)
      (register a.account_id generation h.registry) a.account_id generation _ _
      (get-put_same h.registry a.account_id a.account_id _ (beq_refl a.account_id)) refl refl
      (get-put_same h.routes a.account_id a.account_id _ (beq_refl a.account_id))
      (register-IsAligned h.hosted h.runners h.routes h.registry a.account_id generation
        a.account_id free al)

connected-Aligned :
    (error : Option String) (ans : Answers) (a : Assignment) (generation : ℕ) (h : Host)
    → Dict.get h.hosted a.account_id ≡ none
    → Aligned h
    → Aligned (connected error ans a generation h).1
unfolding report_status
connected-Aligned (some e) ans a generation h free al = al
connected-Aligned none ans a generation h free al =
    refresh-hosted (ans.rules a.api_row_id) a generation ans.now h free al

with_lease-Aligned :
    (generation : Option ℕ) (ans : Answers) (a : Assignment) (h : Host)
    → Dict.get h.hosted a.account_id ≡ none
    → Aligned h
    → Aligned (with_lease generation ans a h).1
with_lease-Aligned none ans a h free al = al
with_lease-Aligned (some g) ans a h free al =
    connected-Aligned (ans.connects a.account_id) ans a g h free al

-- Each desired account stands under its own id.
unfoldable pub IsKeyed : Dict String Assignment → Type 0
IsKeyed [] = Unit
IsKeyed ((id, a) ∷ d) = (id ≡ a.account_id) × IsKeyed d

put-IsKeyed :
    (d : Dict String Assignment) (a : Assignment) → IsKeyed d → IsKeyed (Dict.put d a.account_id a)
unfolding IsKeyed Dict.put
put-IsKeyed [] a h = (refl, tt)
put-IsKeyed ((id, b) ∷ d) a h = elim (Bool-cases (id == a.account_id)) [
  | inl p ↦ rw p (eq_of_beq id a.account_id p, h.1)
  | inr p ↦ rw p (h.0, put-IsKeyed d a h.1)
]

pub desired_of-IsKeyed :
    (wanted : List Assignment) (d : Dict String Assignment)
    → IsKeyed d
    → IsKeyed (desired_of wanted d)
unfolding desired_of
desired_of-IsKeyed [] d h = h
desired_of-IsKeyed (a ∷ wanted) d h =
    desired_of-IsKeyed wanted (Dict.put d a.account_id a) (put-IsKeyed d a h)

not_some : {V : Type 0} (o : Option V) → is_some o ≡ false → o ≡ none
not_some none h = refl
not_some (some v) h = cc

module _ (worker_id : String) (ttl : ℕ) where
  assign-Aligned :
      (ans : Answers) (a : Assignment) (w : World)
      → Dict.get w.host.hosted a.account_id ≡ none
      → Aligned w.host
      → Aligned (assign worker_id ttl ans a w).1.host
  unfolding assign
  assign-Aligned ans a w free al =
      both_branches (λ (r : Bool × World). Aligned r.1.host) a.has_session _ (false, w)
        (with_lease-Aligned (acquire a.account_id worker_id ttl ans.now w.leases).0 ans a w.host
          free al)
        al

  assign_new-Aligned :
      (b : Bool) (ans : Answers) (a : Assignment) (w : World)
      → is_some (Dict.get w.host.hosted a.account_id) ≡ b
      → Aligned w.host
      → Aligned (assign_new worker_id ttl b ans a w).1.host
  assign_new-Aligned true ans a w e al = al
  assign_new-Aligned false ans a w e al =
      assign-Aligned ans a w (not_some (Dict.get w.host.hosted a.account_id) e) al

  and_then-Aligned :
      (r : Bool × World) (next : World → Bool × World)
      → Aligned r.1.host
      → ((w : World) → Aligned w.host → Aligned (next w).1.host)
      → Aligned (and_then r next).1.host
  and_then-Aligned (true, w) next al f = al
  and_then-Aligned (false, w) next al f = f w al

  assign_all-Aligned :
      (ans : Answers) (desired : Dict String Assignment) (w : World)
      → IsKeyed desired
      → Aligned w.host
      → Aligned (assign_all worker_id ttl ans desired w).1.host
  unfolding assign_all IsKeyed
  assign_all-Aligned ans [] w keyed al = al
  assign_all-Aligned ans ((id, a) ∷ desired) w keyed al =
      and_then-Aligned _ (assign_all worker_id ttl ans desired)
        (assign_new-Aligned (is_some (Dict.get w.host.hosted id)) ans a w
          (ap (λ (i : String). is_some (Dict.get w.host.hosted i)) (sym keyed.0)) al)
        (λ w' al'. assign_all-Aligned ans desired w' keyed.1 al')

  follow_answer-Aligned :
      (answer : Option (List Assignment)) (ans : Answers) (w : World)
      → Aligned w.host
      → Aligned (follow_answer worker_id ttl answer ans w).1.host
  unfolding follow IsKeyed
  follow_answer-Aligned none ans w al = al
  follow_answer-Aligned (some wanted) ans w al =
      assign_all-Aligned ans (desired_of wanted []) _ (desired_of-IsKeyed wanted [] tt) (
        release_each-Aligned (undesired w.host.hosted (desired_of wanted [])) "unassigned" w.host
          al)

  -- Reconciling keeps the tables of the host in step, whatever the control plane answers, whichever
  -- leases are won and whichever sessions connect, and also where an exception leaves it: every hosted
  -- account has a runner, a transport and a row of the registry under the runner's generation, and
  -- only hosted accounts have runners.
  pub reconcile-Aligned :
      (answer : Option (List Assignment)) (ans : Answers) (w : World)
      → Aligned w.host
      → Aligned (reconcile worker_id ttl answer ans w).1.host
  unfolding reconcile release_lost
  reconcile-Aligned answer ans w al =
      and_then-Aligned (follow_answer worker_id ttl answer ans w) release_lost
        (follow_answer-Aligned answer ans w al)
        (λ w' al'.
          release_each-Aligned (lost_hosted w'.host.hosted w'.host.lost) "lease_lost" w'.host al')
