-- ===== src/Delivery/Lifecycle.antt =====
-- The life of a delivery job along the legal edges (runtime/delivery/model.py).
use tdaudiibncba.Common.{
  ◌≡◌, ◌≢◌, refl, sym, subst, ◌↔◌, ◌⊎◌, inl, inr, true, false, List, [], ◌∷◌, Memᴰ, arith, ◌==◌,
  contains, Bool-cases,
}
use tdaudiibncba.Delivery.Status.{
  JobStatus, status_eq, status_beq_iff, place, terminal, can_transition, is_unsent,
}

-- The states that a job passes through along legal edges, the last of them included.
pub data Trace : JobStatus → List JobStatus → JobStatus → Type 0 where
  here : {s : JobStatus} → Trace s [] s
  move :
      {s t u : JobStatus} {ts : List JobStatus}
      → can_transition s t ≡ true
      → Trace t ts u
      → Trace s (t ∷ ts) u

-- A way out of each state that is not terminal.
abbrev exit : JobStatus → JobStatus
exit JobStatus.sending = JobStatus.superseded
exit _ = JobStatus.cancelled

exit_legal : (s : JobStatus) → contains terminal s ≡ false → can_transition s (exit s) ≡ true
unfolding terminal can_transition place
exit_legal s h = ground arith

exit_ends : (s : JobStatus) → contains terminal (exit s) ≡ true
unfolding terminal place contains
exit_ends JobStatus.sending = refl
exit_ends _ = refl

stuck_of_terminal : (s t : JobStatus) → contains terminal s ≡ true → can_transition s t ≡ false
unfolding terminal can_transition place
stuck_of_terminal s t h = ground arith

-- A state is in TERMINAL exactly if no legal edge leaves it.
pub terminal_iff_stuck :
    (s : JobStatus) → (contains terminal s ≡ true) ↔ ((t : JobStatus) → can_transition s t ≡ false)
terminal_iff_stuck s = (
  λ h t. stuck_of_terminal s t h,
  λ stuck. elim (Bool-cases (contains terminal s)) [
    | inl h ↦ h
    | inr h ↦ cc (exit_legal s h, stuck (exit s))
  ],
)

-- A terminal state absorbs: no legal trace leaves it.
pub terminal_absorbs :
    {s t : JobStatus} {ts : List JobStatus}
    → contains terminal s ≡ true
    → Trace s ts t
    → (ts ≡ []) × (t ≡ s)
terminal_absorbs h here = (refl, refl)
terminal_absorbs h (move {s} {t} step rest) = cc (stuck_of_terminal s t h, step)

-- Every state that is not terminal has a legal edge to one that is.
pub exit-terminal :
    (s : JobStatus)
    → contains terminal s ≡ false
    → (t : JobStatus) × (can_transition s t ≡ true) × (contains terminal t ≡ true)
exit-terminal s h = (exit s, exit_legal s h, exit_ends s)

leased_before_sending :
    (s : JobStatus) → can_transition s JobStatus.sending ≡ true → s ≡ JobStatus.leased
unfolding can_transition place
leased_before_sending s h = ground arith

-- A job is sent only under a lease: a legal trace that ends in `sending` and does not start there
-- passes through `leased`.
pub sending_needs_lease :
    {s t : JobStatus} {ts : List JobStatus}
    → Trace s ts t
    → t ≡ JobStatus.sending
    → s ≢ JobStatus.sending
    → Memᴰ JobStatus.leased (s ∷ ts)
sending_needs_lease here e n = absurd (n e)
sending_needs_lease (move {s} {t} step rest) e n = elim (Bool-cases (t == JobStatus.sending)) [
  | inl q ↦ Memᴰ.head (
      sym (
        leased_before_sending s
          (subst (λ x. can_transition s x ≡ true) ((status_beq_iff t JobStatus.sending).0 q) step)))
  | inr q ↦
      Memᴰ.tail (sending_needs_lease rest e (λ p. cc (q, (status_beq_iff t JobStatus.sending).1 p)))
]

after_uncertain :
    (t : JobStatus)
    → can_transition JobStatus.uncertain t ≡ true
    → (t ≡ JobStatus.confirmed_not_sent) ⊎ (contains terminal t ≡ true)
unfolding can_transition terminal place
after_uncertain t h = ground arith

sending_not_terminal : contains terminal JobStatus.sending ≡ false
unfolding terminal contains place
sending_not_terminal = refl

-- An uncertain job is never sent again unless it is first confirmed as not sent: a legal trace
-- from `uncertain` to `sending` passes through `confirmed_not_sent`.
pub uncertain_needs_confirmation :
    {s t : JobStatus} {ts : List JobStatus}
    → Trace s ts t
    → s ≡ JobStatus.uncertain
    → t ≡ JobStatus.sending
    → Memᴰ JobStatus.confirmed_not_sent ts
uncertain_needs_confirmation here e e' = cc
uncertain_needs_confirmation (move {t} step rest) e e' =
    elim (after_uncertain t (subst (λ x. can_transition x t ≡ true) e step)) [
      | inl c ↦ Memᴰ.head (sym c)
      | inr d ↦ cc (d, sending_not_terminal, e', (terminal_absorbs d rest).1)
    ]

-- What counts as unsent can be cancelled.
pub unsent_cancellable :
    (s : JobStatus) → is_unsent s ≡ true → can_transition s JobStatus.cancelled ≡ true
unfolding is_unsent can_transition place
unsent_cancellable s h = ground arith
