-- ===== src/Examples/Controlling.antt =====
-- The theorems on the control layer, on an account that is disabled and on one that is taken over.
use tdaudiibncba.Common.{
  some_inj, none≢some, String, ◌≡◌, ◌⊎◌, refl, Bool, true, false, some, [], ◌∷◌, ◌==◌, string_eq,
  Bool-cases, inl, inr, ap, sym, ◌∙◌, eq_of_beq,
}
use tdaudiibncba.Common.Dict
use tdaudiibncba.Control.Controller.{
  CommandType, AccountPhase, AccountRuntimeState, RuntimeCommand, RuntimeController, current, apply,
  blocked_takeover,
}
use tdaudiibncba.Control.Replay.{IsFiled}
use tdaudiibncba.Control.Transitions.{Effect, apply-Effect}
use tdaudiibncba.Control.Takeover.{
  disabled_holds_but_for_unfenced_takeover, Fenced, apply_takeover-Fenced,
}

abbrev row_in : AccountPhase → AccountRuntimeState
row_in phase = record {
  account_id = "acc";
  phase = phase;
  worker_id = some "w1";
  generation = some 4;
  reason = "";
}

abbrev controller_in : AccountPhase → RuntimeController
controller_in phase = record { rows = ("acc", row_in phase) ∷ []; seen_dedup = [] }

owned :
    (phase : AccountPhase) (a : String) (s : AccountRuntimeState)
    → Dict.get (controller_in phase).rows a ≡ some s
    → s.account_id ≡ a
unfolding Dict.get
owned phase a s h = elim (Bool-cases ("acc" == a)) [
  | inl p ↦
      ap (λ (t : AccountRuntimeState). t.account_id) (sym (some_inj (rw p at h)))
      ∙ eq_of_beq "acc" a p
  | inr p ↦ absurd (none≢some (rw p at h))
]

one_row-IsFiled : (phase : AccountPhase) → IsFiled (controller_in phase)
one_row-IsFiled phase = record { own = owned phase }

abbrev pause_command : RuntimeCommand
pause_command = record {
  account_id = "acc";
  type = CommandType.pause;
  dedup_key = "k1";
  issued_by = "ops";
  old_holder_confirmed_dead = false;
}

abbrev takeover_command : Bool → RuntimeCommand
takeover_command dead = record pause_command {
  type = CommandType.takeover;
  dedup_key = "k2";
  old_holder_confirmed_dead = dead;
}

apply-Effect_example :
    let c = controller_in AccountPhase.online in
    let r = apply c pause_command in
    Effect r.0.status CommandType.pause false (current c "acc") (current r.1 "acc")
apply-Effect_example =
    apply-Effect (controller_in AccountPhase.online) pause_command
      (one_row-IsFiled AccountPhase.online)

disabled_holds_but_for_unfenced_takeover_example :
    let c = controller_in AccountPhase.disabled in
    let t = current (apply c (takeover_command false)).1 "acc" in
    (t ≡ current c "acc")
    ⊎ ((CommandType.takeover ≡ CommandType.takeover)
        × (false ≡ false)
        × (t ≡ blocked_takeover (current c "acc")))
unfolding current Dict.get
disabled_holds_but_for_unfenced_takeover_example =
    disabled_holds_but_for_unfenced_takeover (controller_in AccountPhase.disabled)
      (takeover_command false) (one_row-IsFiled AccountPhase.disabled) refl

apply_takeover-Fenced_example :
    let c = controller_in AccountPhase.online in
    let r = apply c (takeover_command true) in
    Fenced (takeover_command true) (current c "acc") r.0.status (current r.1 "acc")
apply_takeover-Fenced_example =
    apply_takeover-Fenced (controller_in AccountPhase.online) (takeover_command true) refl
