-- ===== src/Control/Transitions.antt =====
-- What a command does to its own account and to the others (runtime/control/controller.py).
use tdaudiibncba.Common.{
  String, ◌≡◌, refl, sym, ap, ◌∙◌, subst, ◌⊎◌, inl, inr, Bool, true, false, ◌∷◌, ◌==◌, contains,
  beq_refl, Bool-cases, string_eq,
}
use tdaudiibncba.Control.Controller.{
  CommandType, CommandStatus, Reason, AccountRuntimeState, RuntimeCommand, RuntimeController,
  Applied, current, put_state, outcome, take_over, move, dispatch, apply_fresh, apply, allowed,
  next_phase, phase_eq, taken_over, moved_to, blocked_takeover,
}
use tdaudiibncba.Control.Replay.{IsFiled, current-account, current-put_state}

-- What is left of the row `s` by a command of a type, which confirms or does not that the old
-- holder is dead, by the status of its result.
abbrev pub Effect :
    CommandStatus → CommandType → Bool → AccountRuntimeState → AccountRuntimeState → Type 0
Effect CommandStatus.applied type dead s t =
    (contains (allowed type) s.phase ≡ true) × (t.phase ≡ next_phase type)
Effect CommandStatus.duplicate type dead s t = t ≡ s
Effect CommandStatus.rejected type dead s t =
    (t ≡ s) ⊎ ((type ≡ CommandType.takeover) × (dead ≡ false) × (t ≡ blocked_takeover s))

pub current_own :
    (c : RuntimeController) (t : AccountRuntimeState) (a : String)
    → t.account_id ≡ a
    → current (put_state c t) a ≡ t
current_own c t a own = rw (current-put_state c t a, own, beq_refl a)

current_other :
    (c : RuntimeController) (t : AccountRuntimeState) (a : String)
    → (t.account_id == a) ≡ false
    → current (put_state c t) a ≡ current c a
current_other c t a other = rw (current-put_state c t a, other)

module _ (c : RuntimeController) (command : RuntimeCommand) (s : AccountRuntimeState)
    (own : s.account_id ≡ command.account_id) (e : current c command.account_id ≡ s) where
  Leaves : Applied → Type 0
  Leaves r =
      Effect r.0.status command.type command.old_holder_confirmed_dead s
        (current r.1 command.account_id)

  move-Effect : Leaves (move c command s)
  unfolding move Leaves
  move-Effect = elim (Bool-cases (contains (allowed command.type) s.phase)) [
    | inl p ↦ rw p (
      p,
      ap (λ (t : AccountRuntimeState). t.phase)
          (current_own c (moved_to s command.type) command.account_id own),
    )
    | inr p ↦ rw p (inl e)
  ]

  take_over-Effect : command.type ≡ CommandType.takeover → Leaves (take_over c command s)
  unfolding take_over Leaves next_phase
  take_over-Effect ty = elim (Bool-cases command.old_holder_confirmed_dead) [
    | inl dead ↦ elim (Bool-cases (contains (allowed CommandType.takeover) s.phase)) [
      | inl p ↦
          rw (dead, ty, p)
            (
              p,
              ap (λ (t : AccountRuntimeState). t.phase)
                  (current_own c (taken_over command s) command.account_id refl),
            )
      | inr p ↦ rw (dead, p) (inl e)
    ]
    | inr dead ↦ rw dead (inr (ty, refl, current_own c (blocked_takeover s) command.account_id own))
  ]

  dispatch-Effect : (type : CommandType) → command.type ≡ type → Leaves (dispatch type c command s)
  dispatch-Effect CommandType.takeover ty = take_over-Effect ty
  dispatch-Effect _ ty = move-Effect

  take_over-other :
      (a : String)
      → (command.account_id == a) ≡ false
      → current (take_over c command s).1 a ≡ current c a
  unfolding take_over
  take_over-other a n = elim (Bool-cases command.old_holder_confirmed_dead) [
    | inl dead ↦ elim (Bool-cases (contains (allowed CommandType.takeover) s.phase)) [
      | inl p ↦ rw (dead, p) (current_other c (taken_over command s) a n)
      | inr p ↦ rw (dead, p)
    ]
    | inr dead ↦
        rw dead (current_other c (blocked_takeover s) a (ap (λ (x : String). x == a) own ∙ n))
  ]

  move-other :
      (a : String)
      → (command.account_id == a) ≡ false
      → current (move c command s).1 a ≡ current c a
  unfolding move
  move-other a n = elim (Bool-cases (contains (allowed command.type) s.phase)) [
    | inl p ↦
        rw p (current_other c (moved_to s command.type) a (ap (λ (x : String). x == a) own ∙ n))
    | inr p ↦ rw p
  ]

  dispatch-other :
      (type : CommandType) (a : String)
      → (command.account_id == a) ≡ false
      → current (dispatch type c command s).1 a ≡ current c a
  dispatch-other CommandType.takeover a n = take_over-other a n
  dispatch-other _ a n = move-other a n

module _ (c : RuntimeController) (command : RuntimeCommand) (filed : IsFiled c) where
  apply_fresh-Effect :
      Leaves c command
        (current c command.account_id)
        (current-account c command.account_id filed)
        refl
        (apply_fresh c command)
  unfolding apply_fresh
  apply_fresh-Effect =
      dispatch-Effect c command (current c command.account_id)
        (current-account c command.account_id filed) refl command.type refl

  apply_fresh-other :
      (a : String)
      → (command.account_id == a) ≡ false
      → current (apply_fresh c command).1 a ≡ current c a
  unfolding apply_fresh
  apply_fresh-other a n =
      dispatch-other c command (current c command.account_id)
        (current-account c command.account_id filed) refl command.type a n

unfoldable pub note_seen : RuntimeController → String → RuntimeController
note_seen c k = record c { seen_dedup = k ∷ c.seen_dedup }

pub current-note_seen :
    (c : RuntimeController) (k a : String) → current (note_seen c k) a ≡ current c a
unfolding current note_seen
current-note_seen c k a = refl

pub IsFiled-note_seen : (c : RuntimeController) (k : String) → IsFiled c → IsFiled (note_seen c k)
unfolding note_seen
IsFiled-note_seen c k f = record { own = f.own }

-- The four ways `apply` goes.
pub apply_cases :
    (c : RuntimeController) (command : RuntimeCommand)
    → (apply c command ≡ apply_fresh c command)
      ⊎ (apply c command ≡ apply_fresh (note_seen c command.dedup_key) command)
      ⊎ (apply c command
          ≡ (outcome CommandStatus.duplicate (current c command.account_id) Reason.dedup_replay, c))
unfolding apply note_seen
apply_cases c command = elim (Bool-cases (command.dedup_key == "")) [
  | inl p ↦ inl (rw p)
  | inr p ↦ elim (Bool-cases (contains c.seen_dedup command.dedup_key)) [
    | inl q ↦ inr (inr (rw (p, q)))
    | inr q ↦ inr (inl (rw (p, q)))
  ]
]

-- What `apply` does, on every branch, to the row of its command's account, where each row is filed
-- under its account: an applied command was allowed in the old phase and leaves the phase that the
-- table gives; a duplicate leaves the row as it was; and so does a rejected command, unless it is
-- a takeover whose sender does not confirm that the old holder is dead, which leaves the row
-- blocked.
pub apply-Effect :
    (c : RuntimeController) (command : RuntimeCommand)
    → IsFiled c
    → let r = apply c command in
      Effect r.0.status command.type command.old_holder_confirmed_dead
        (current c command.account_id)
        (current r.1 command.account_id)
unfolding Leaves
apply-Effect c command filed =
    let a = command.account_id in
    let k = command.dedup_key in
    let AsEffect = λ (s : AccountRuntimeState) (r : Applied).
      Effect r.0.status command.type command.old_holder_confirmed_dead s (current r.1 a) in
    elim (apply_cases c command) [
      | inl e ↦ subst (AsEffect (current c a)) (sym e) (apply_fresh-Effect c command filed)
      | inr (inl e) ↦ subst (AsEffect (current c a)) (sym e) (
          subst (λ (s : AccountRuntimeState). AsEffect s (apply_fresh (note_seen c k) command))
            (current-note_seen c k a)
            (apply_fresh-Effect (note_seen c k) command (IsFiled-note_seen c k filed)))
      | inr (inr e) ↦ subst (AsEffect (current c a)) (sym e) refl
    ]

-- Where each row is filed under its account, a command changes the row of no account but its own.
pub apply-other :
    (c : RuntimeController) (command : RuntimeCommand) (a : String)
    → IsFiled c
    → (command.account_id == a) ≡ false
    → current (apply c command).1 a ≡ current c a
apply-other c command a filed n =
    let k = command.dedup_key in
    elim (apply_cases c command) [
      | inl e ↦ rw e (apply_fresh-other c command filed a n)
      | inr (inl e) ↦ rw e (
          apply_fresh-other (note_seen c k) command (IsFiled-note_seen c k filed) a n
          ∙ current-note_seen c k a)
      | inr (inr e) ↦ rw e
    ]
