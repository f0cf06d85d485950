-- ===== src/Host/Departures.antt =====
-- Who stays when a host lets accounts go (runtime/worker/host.py, _release and reconcile).
use tdaudiibncba.Common.{
  none≢some, true≢false, String, ◌≡◌, refl, sym, ap, ◌∙◌, inl, inr, true, false, Option, none, some,
  List, [], ◌∷◌, ◌==◌, is_some, contains, string_eq, Bool-cases, beq_refl, eq_of_beq,
}
use tdaudiibncba.Common.Dict
use tdaudiibncba.Common.Dict.{Dict, get-put, get-remove}
use tdaudiibncba.Host.State.{Assignment, Hosted, Host, report_status}
use tdaudiibncba.Host.Assigning.{let_go, release, release_each, undesired, lost_hosted}
use tdaudiibncba.Host.Alignment.{get-remove_other, get-remove_same}

let_go_hosted :
    (o : Option Hosted) (reason : String) (h : Host)
    → ((let_go o reason h).hosted ≡ h.hosted) × ((let_go o reason h).lost ≡ h.lost)
unfolding report_status
let_go_hosted none reason h = (refl, refl)
let_go_hosted (some x) reason h = elim (Bool-cases (reason == "lease_lost")) [
  | inl p ↦ rw p (refl, refl)
  | inr p ↦ rw p (refl, refl)
]

release_hosted :
    (id reason : String) (h : Host)
    → ((release id reason h).hosted ≡ Dict.remove h.hosted id)
      × ((release id reason h).lost ≡ h.lost)
unfolding release
release_hosted id reason h = let_go_hosted (Dict.get h.hosted id) reason _

-- Who is still hosted after some accounts were let go.
pub stays :
    (ids : List String) (reason : String) (h : Host) (a : String) (x : Hosted)
    → Dict.get (release_each ids reason h).hosted a ≡ some x
    → (Dict.get h.hosted a ≡ some x) × (contains ids a ≡ false)
unfolding release_each contains
stays [] reason h a x e = (e, refl)
stays (id ∷ ids) reason h a x e =
    let (e', others) = stays ids reason (release id reason h) a x e in
    let removed : Dict.get (Dict.remove h.hosted id) a ≡ some x =
      ap (λ (d : Dict String Hosted). Dict.get d a) (sym (release_hosted id reason h).0) ∙ e' in
    elim (Bool-cases (id == a)) [
      | inl p ↦ absurd (none≢some (sym (get-remove_same h.hosted id a p) ∙ removed))
      | inr p ↦
          (sym (get-remove_other h.hosted id a p) ∙ removed, rw (Dict.beq_sym_false id a p) others)
    ]

pub release_each_lost :
    (ids : List String) (reason : String) (h : Host) → (release_each ids reason h).lost ≡ h.lost
unfolding release_each
release_each_lost [] reason h = refl
release_each_lost (id ∷ ids) reason h =
    release_each_lost ids reason (release id reason h) ∙ (release_hosted id reason h).1

pub wanted_of :
    (hosted : Dict String Hosted) (desired : Dict String Assignment) (a : String) (x : Hosted)
    → Dict.get hosted a ≡ some x
    → contains (undesired hosted desired) a ≡ false
    → is_some (Dict.get desired a) ≡ true
unfolding undesired Dict.get contains
wanted_of [] desired a x e out = absurd (none≢some e)
wanted_of ((id, y) ∷ hosted) desired a x e out = elim (Bool-cases (is_some (Dict.get desired id))) [
  | inl p ↦ elim (Bool-cases (id == a)) [
    | inl q ↦ ap (λ (i : String). is_some (Dict.get desired i)) (sym (eq_of_beq id a q)) ∙ p
    | inr q ↦ wanted_of hosted desired a x (rw q at e) (rw p at out)
  ]
  | inr p ↦ elim (Bool-cases (id == a)) [
    | inl q ↦
        let here : (a == id) ≡ true = rw (eq_of_beq id a q) (beq_refl a) in
        absurd (true≢false (rw (p, here) at out))
    | inr q ↦ wanted_of hosted desired a x (rw q at e) (rw (p, Dict.beq_sym_false id a q) at out)
  ]
]

pub listed_lost :
    (hosted : Dict String Hosted) (lost : List String) (a : String) (x : Hosted)
    → Dict.get hosted a ≡ some x
    → contains lost a ≡ true
    → contains (lost_hosted hosted lost) a ≡ true
unfolding lost_hosted Dict.get contains
listed_lost [] lost a x e gone = absurd (none≢some e)
listed_lost ((id, y) ∷ hosted) lost a x e gone = elim (Bool-cases (id == a)) [
  | inl q ↦
      let same = eq_of_beq id a q in
      let here : (a == id) ≡ true = rw same (beq_refl a) in
      let out : contains lost id ≡ true = rw same gone in rw (out, here)
  | inr q ↦
      let rest = listed_lost hosted lost a x (rw q at e) gone in
      elim (Bool-cases (contains lost id)) [
        | inl p ↦ rw (p, Dict.beq_sym_false id a q) rest
        | inr p ↦ rw p rest
      ]
]
