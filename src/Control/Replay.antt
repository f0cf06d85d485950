-- ===== src/Control/Replay.antt =====
-- A command is applied once, and to its own account (runtime/control/controller.py).
use tdaudiibncba.Common.{
  String, ◌≡◌, ◌≢◌, sym, ap, ◌∙◌, inl, inr, true, false, some, ◌==◌, arith, contains, beq_refl,
  eq_of_beq, Bool-cases, Option-cases, string_eq, if◌then◌else◌,
}
use tdaudiibncba.Common.Dict
use tdaudiibncba.Common.Dict.{get-put, get-put_cases}
use tdaudiibncba.Control.Controller.{
  CommandType, CommandStatus, Reason, AccountRuntimeState, RuntimeCommand, RuntimeController,
  current, put_state, outcome, take_over, move, dispatch, apply_fresh, apply,
}

not_empty : (s : String) → s ≢ "" → (s == "") ≡ false
not_empty s n = elim (Bool-cases (s == "")) [ inl p ↦ absurd (n (eq_of_beq s "" p)) | inr p ↦ p ]

-- Every row is filed under its own account.
pub record IsFiled (c : RuntimeController) : Type 0 where
  pub own : (a : String) (s : AccountRuntimeState) → Dict.get c.rows a ≡ some s → s.account_id ≡ a

pub current-account :
    (c : RuntimeController) (a : String) → IsFiled c → (current c a).account_id ≡ a
unfolding current
current-account c a f = elim (Option-cases (Dict.get c.rows a)) [
  | inl e ↦ rw e
  | inr (s, e) ↦ rw e (f.own a s e)
]

pub current-put_state :
    (c : RuntimeController) (s : AccountRuntimeState) (a : String)
    → current (put_state c s) a ≡ (if s.account_id == a then s else current c a)
unfolding current put_state
current-put_state c s a = elim (Bool-cases (s.account_id == a)) [
  | inl p ↦ rw (get-put c.rows s.account_id a s, p)
  | inr p ↦ rw (get-put c.rows s.account_id a s, p)
]

pub IsFiled-put_state :
    (c : RuntimeController) (s : AccountRuntimeState) → IsFiled c → IsFiled (put_state c s)
unfolding put_state
IsFiled-put_state c s f = record {
  own = λ a t h. elim (get-put_cases c.rows s.account_id a s t h) [
    | inl (p, q) ↦ ap (λ (x : AccountRuntimeState). x.account_id) (sym q) ∙ p
    | inr (p, q) ↦ f.own a t q
  ];
}

seen-take_over :
    (c : RuntimeController) (command : RuntimeCommand) (s : AccountRuntimeState)
    → (take_over c command s).1.seen_dedup ≡ c.seen_dedup
unfolding take_over
seen-take_over c command s = ground arith

seen-move :
    (c : RuntimeController) (command : RuntimeCommand) (s : AccountRuntimeState)
    → (move c command s).1.seen_dedup ≡ c.seen_dedup
unfolding move
seen-move c command s = ground arith

seen-dispatch :
    (type : CommandType) (c : RuntimeController) (command : RuntimeCommand)
    (s : AccountRuntimeState)
    → (dispatch type c command s).1.seen_dedup ≡ c.seen_dedup
seen-dispatch CommandType.takeover c command s = seen-take_over c command s
seen-dispatch _ c command s = seen-move c command s

seen-apply_fresh :
    (c : RuntimeController) (command : RuntimeCommand)
    → (apply_fresh c command).1.seen_dedup ≡ c.seen_dedup
unfolding apply_fresh
seen-apply_fresh c command = seen-dispatch command.type c command (current c command.account_id)

key_seen :
    (c : RuntimeController) (command : RuntimeCommand)
    → (command.dedup_key == "") ≡ false
    → contains (apply c command).1.seen_dedup command.dedup_key ≡ true
unfolding apply contains
key_seen c command n = elim (Bool-cases (contains c.seen_dedup command.dedup_key)) [
  | inl p ↦ rw (n, p) p
  | inr p ↦ rw (n, p, seen-apply_fresh, beq_refl)
]

duplicate_answer :
    (c : RuntimeController) (again : RuntimeCommand)
    → (again.dedup_key == "") ≡ false
    → contains c.seen_dedup again.dedup_key ≡ true
    → apply c again
      ≡ (outcome CommandStatus.duplicate (current c again.account_id) Reason.dedup_replay, c)
unfolding apply
duplicate_answer c again n h = rw (n, h)

-- A dedup key that is not empty is used up by the first command that carries it, whatever came of
-- that: a command with the same key that is sent right after it is answered as a duplicate and
-- leaves the controller as it was.
pub apply-replay :
    (c : RuntimeController) (first again : RuntimeCommand)
    → first.dedup_key ≢ ""
    → again.dedup_key ≡ first.dedup_key
    → let c' = (apply c first).1 in
      apply c' again
      ≡ (outcome CommandStatus.duplicate (current c' again.account_id) Reason.dedup_replay, c')
apply-replay c first again n e =
    let named : (first.dedup_key == "") ≡ false = not_empty first.dedup_key n in
    duplicate_answer (apply c first).1 again (ap (λ (k : String). k == "") e ∙ named)
      (ap (contains (apply c first).1.seen_dedup) e ∙ key_seen c first named)
