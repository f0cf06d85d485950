-- ===== src/Control/Takeover.antt =====
-- Takeovers, disabled accounts and the filing of rows (runtime/control/controller.py).
use tdaudiibncba.Common.{
  true≢false, ◌≡◌, refl, sym, ap, ◌∙◌, subst, ◌⊎◌, inl, inr, Bool, true, false, some, contains,
  Bool-cases, string_eq,
}
use tdaudiibncba.Control.Controller.{
  CommandType, CommandStatus, AccountPhase, AccountRuntimeState, RuntimeCommand, RuntimeController,
  Applied, current, take_over, move, dispatch, apply_fresh, apply, allowed, phase_eq, taken_over,
  moved_to, blocked_takeover, next_generation, phase_beq, place,
}
use tdaudiibncba.Control.Replay.{IsFiled, IsFiled-put_state}
use tdaudiibncba.Control.Transitions.{
  Effect, apply-Effect, apply_cases, note_seen, current-note_seen, IsFiled-note_seen, current_own,
}

move-IsFiled :
    (c : RuntimeController) (command : RuntimeCommand) (s : AccountRuntimeState)
    → IsFiled c
    → IsFiled (move c command s).1
unfolding move
move-IsFiled c command s f = elim (Bool-cases (contains (allowed command.type) s.phase)) [
  | inl p ↦ rw p (IsFiled-put_state c (moved_to s command.type) f)
  | inr p ↦ rw p f
]

take_over-IsFiled :
    (c : RuntimeController) (command : RuntimeCommand) (s : AccountRuntimeState)
    → IsFiled c
    → IsFiled (take_over c command s).1
unfolding take_over
take_over-IsFiled c command s f = elim (Bool-cases command.old_holder_confirmed_dead) [
  | inl dead ↦ elim (Bool-cases (contains (allowed CommandType.takeover) s.phase)) [
    | inl p ↦ rw (dead, p) (IsFiled-put_state c (taken_over command s) f)
    | inr p ↦ rw (dead, p) f
  ]
  | inr dead ↦ rw dead (IsFiled-put_state c (blocked_takeover s) f)
]

dispatch-IsFiled :
    (type : CommandType) (c : RuntimeController) (command : RuntimeCommand)
    (s : AccountRuntimeState)
    → IsFiled c
    → IsFiled (dispatch type c command s).1
dispatch-IsFiled CommandType.takeover c command s f = take_over-IsFiled c command s f
dispatch-IsFiled _ c command s f = move-IsFiled c command s f

apply_fresh-IsFiled :
    (c : RuntimeController) (command : RuntimeCommand)
    → IsFiled c
    → IsFiled (apply_fresh c command).1
unfolding apply_fresh
apply_fresh-IsFiled c command f =
    dispatch-IsFiled command.type c command (current c command.account_id) f

-- Every command keeps each row filed under its own account.
pub apply-IsFiled :
    (c : RuntimeController) (command : RuntimeCommand) → IsFiled c → IsFiled (apply c command).1
apply-IsFiled c command f = elim (apply_cases c command) [
  | inl e ↦ rw e (apply_fresh-IsFiled c command f)
  | inr (inl e) ↦ rw e (
      apply_fresh-IsFiled (note_seen c command.dedup_key) command
        (IsFiled-note_seen c command.dedup_key f))
  | inr (inr e) ↦ rw e f
]

not_allowed_when_disabled :
    (type : CommandType) → contains (allowed type) AccountPhase.disabled ≡ false
unfolding allowed contains phase_beq place
not_allowed_when_disabled CommandType.start = refl
not_allowed_when_disabled _ = refl

disabled-Effect :
    (status : CommandStatus) (type : CommandType) (dead : Bool) (s t : AccountRuntimeState)
    → s.phase ≡ AccountPhase.disabled
    → Effect status type dead s t
    → (t ≡ s) ⊎ ((type ≡ CommandType.takeover) × (dead ≡ false) × (t ≡ blocked_takeover s))
disabled-Effect CommandStatus.applied type dead s t d (ok, ph) =
    absurd (true≢false (sym (rw d at ok) ∙ not_allowed_when_disabled type))
disabled-Effect CommandStatus.duplicate type dead s t d e = inl e
disabled-Effect CommandStatus.rejected type dead s t d e = e

-- Where each row is filed under its account, the row of a disabled account is left as it is by
-- every command, except by a takeover whose sender does not confirm that the old holder is dead,
-- which leaves the row blocked, no longer disabled.
pub disabled_holds_but_for_unfenced_takeover :
    (c : RuntimeController) (command : RuntimeCommand)
    → IsFiled c
    → (current c command.account_id).phase ≡ AccountPhase.disabled
    → let t = current (apply c command).1 command.account_id in
      (t ≡ current c command.account_id)
      ⊎ ((command.type ≡ CommandType.takeover)
          × (command.old_holder_confirmed_dead ≡ false)
          × (t ≡ blocked_takeover (current c command.account_id)))
disabled_holds_but_for_unfenced_takeover c command f d =
    let r = apply c command in
    disabled-Effect r.0.status command.type command.old_holder_confirmed_dead
      (current c command.account_id) (current r.1 command.account_id) d (apply-Effect c command f)

-- What an applied takeover leaves, in the store `r.1`.
abbrev pub Fenced :
    RuntimeCommand → AccountRuntimeState → CommandStatus → AccountRuntimeState → Type 0
Fenced command s CommandStatus.applied t =
    (command.old_holder_confirmed_dead ≡ true)
    × (t.generation ≡ some (next_generation s.generation))
Fenced command s _ t = Unit

take_over-Fenced :
    (c : RuntimeController) (command : RuntimeCommand) (s : AccountRuntimeState)
    → let r = take_over c command s in Fenced command s r.0.status (current r.1 command.account_id)
unfolding take_over
take_over-Fenced c command s = elim (Bool-cases command.old_holder_confirmed_dead) [
  | inl dead ↦ elim (Bool-cases (contains (allowed CommandType.takeover) s.phase)) [
    | inl p ↦
        rw (dead, p)
          (
            refl,
            ap (λ (t : AccountRuntimeState). t.generation)
                (current_own c (taken_over command s) command.account_id refl),
          )
    | inr p ↦ rw (dead, p) tt
  ]
  | inr dead ↦ rw dead tt
]

apply_fresh-Fenced :
    (c : RuntimeController) (command : RuntimeCommand)
    → command.type ≡ CommandType.takeover
    → let r = apply_fresh c command in
      Fenced command (current c command.account_id) r.0.status (current r.1 command.account_id)
unfolding apply_fresh
apply_fresh-Fenced c command ty =
    let s = current c command.account_id in
    subst
      (λ (type : CommandType).
        let r = dispatch type c command s in
        Fenced command s r.0.status (current r.1 command.account_id))
      (sym ty) (take_over-Fenced c command s)

-- A takeover is applied only if its sender confirms that the old holder is dead, and then the
-- account's generation is one more than it was, or one where it had none.
pub apply_takeover-Fenced :
    (c : RuntimeController) (command : RuntimeCommand)
    → command.type ≡ CommandType.takeover
    → let r = apply c command in
      Fenced command (current c command.account_id) r.0.status (current r.1 command.account_id)
apply_takeover-Fenced c command ty =
    let a = command.account_id in
    let k = command.dedup_key in
    let AsFenced =
      λ (s : AccountRuntimeState) (r : Applied). Fenced command s r.0.status (current r.1 a) in
    elim (apply_cases c command) [
      | inl e ↦ subst (AsFenced (current c a)) (sym e) (apply_fresh-Fenced c command ty)
      | inr (inl e) ↦ subst (AsFenced (current c a)) (sym e) (
          subst (λ (s : AccountRuntimeState). AsFenced s (apply_fresh (note_seen c k) command))
            (current-note_seen c k a) (apply_fresh-Fenced (note_seen c k) command ty))
      | inr (inr e) ↦ subst (AsFenced (current c a)) (sym e) tt
    ]
