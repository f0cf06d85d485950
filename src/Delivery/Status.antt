-- ===== src/Delivery/Status.antt =====
-- runtime/delivery/model.py: the states of a delivery job and the legal edges between them.
use tdaudiibncba.Common.{
  ℕ, ◌≡◌, refl, ap, ◌↔◌, Bool, true, List, [], ◌∷◌, Eq, nat_beq, nat_beq_iff, contains, get_elem?,
  some, if◌then◌else◌,
}

pub data JobStatus : Type 0 where
  pending waiting_approval ready leased sending succeeded retry_wait blocked : JobStatus
  failed_permanent dead_letter uncertain reconciled_succeeded confirmed_not_sent : JobStatus
  manual_review cancelled expired superseded : JobStatus

-- The place of a state in the enumeration; two states are equal if their places are.
unfoldable pub place : JobStatus → ℕ
place JobStatus.pending = 0
place JobStatus.waiting_approval = 1
place JobStatus.ready = 2
place JobStatus.leased = 3
place JobStatus.sending = 4
place JobStatus.succeeded = 5
place JobStatus.retry_wait = 6
place JobStatus.blocked = 7
place JobStatus.failed_permanent = 8
place JobStatus.dead_letter = 9
place JobStatus.uncertain = 10
place JobStatus.reconciled_succeeded = 11
place JobStatus.confirmed_not_sent = 12
place JobStatus.manual_review = 13
place JobStatus.cancelled = 14
place JobStatus.expired = 15
place JobStatus.superseded = 16

abbrev pub all_statuses : List JobStatus
all_statuses =
    JobStatus.pending ∷ JobStatus.waiting_approval ∷ JobStatus.ready ∷ JobStatus.leased
    ∷ JobStatus.sending ∷ JobStatus.succeeded ∷ JobStatus.retry_wait ∷ JobStatus.blocked
    ∷ JobStatus.failed_permanent ∷ JobStatus.dead_letter ∷ JobStatus.uncertain
    ∷ JobStatus.reconciled_succeeded ∷ JobStatus.confirmed_not_sent ∷ JobStatus.manual_review
    ∷ JobStatus.cancelled ∷ JobStatus.expired ∷ JobStatus.superseded ∷ []

at_place : (s : JobStatus) → get_elem? all_statuses (place s) ≡ some s
unfolding place
at_place JobStatus.pending = refl
at_place _ = refl

place-injective : (s t : JobStatus) → place s ≡ place t → s ≡ t
place-injective s t h = cc (at_place s, at_place t, h)

abbrev pub status_beq : JobStatus → JobStatus → Bool
unfolding place
status_beq s t = nat_beq (place s) (place t)

pub status_beq_iff : (s t : JobStatus) → (status_beq s t ≡ true) ↔ (s ≡ t)
unfolding status_beq place
status_beq_iff s t = (
  λ h. place-injective s t ((nat_beq_iff (place s) (place t)).0 h),
  λ p. (nat_beq_iff (place s) (place t)).1 (ap place p),
)

instance abbrev pub status_eq : Eq JobStatus
status_eq = record { beq = status_beq; beq_iff = status_beq_iff }

unfoldable pub terminal : List JobStatus
terminal =
    JobStatus.succeeded ∷ JobStatus.reconciled_succeeded ∷ JobStatus.failed_permanent
    ∷ JobStatus.dead_letter ∷ JobStatus.manual_review ∷ JobStatus.cancelled ∷ JobStatus.expired
    ∷ JobStatus.superseded ∷ []

unfoldable pub unsent : List JobStatus
unsent =
    JobStatus.pending ∷ JobStatus.waiting_approval ∷ JobStatus.ready ∷ JobStatus.retry_wait
    ∷ JobStatus.blocked ∷ JobStatus.uncertain ∷ []

-- `_EDGES.get(src, frozenset())`
unfoldable pub edges : JobStatus → List JobStatus
edges JobStatus.pending =
    JobStatus.waiting_approval ∷ JobStatus.ready ∷ JobStatus.cancelled ∷ JobStatus.expired
    ∷ JobStatus.superseded ∷ []
edges JobStatus.waiting_approval =
    JobStatus.ready ∷ JobStatus.cancelled ∷ JobStatus.expired ∷ JobStatus.superseded ∷ []
edges JobStatus.ready =
    JobStatus.leased ∷ JobStatus.blocked ∷ JobStatus.cancelled ∷ JobStatus.expired
    ∷ JobStatus.superseded ∷ []
edges JobStatus.leased =
    JobStatus.sending ∷ JobStatus.ready ∷ JobStatus.blocked ∷ JobStatus.cancelled
    ∷ JobStatus.expired ∷ JobStatus.superseded ∷ []
edges JobStatus.sending =
    JobStatus.succeeded ∷ JobStatus.retry_wait ∷ JobStatus.blocked ∷ JobStatus.failed_permanent
    ∷ JobStatus.dead_letter ∷ JobStatus.uncertain ∷ JobStatus.superseded ∷ []
edges JobStatus.retry_wait =
    JobStatus.ready ∷ JobStatus.blocked ∷ JobStatus.dead_letter ∷ JobStatus.cancelled
    ∷ JobStatus.expired ∷ JobStatus.superseded ∷ []
edges JobStatus.blocked =
    JobStatus.ready ∷ JobStatus.cancelled ∷ JobStatus.expired ∷ JobStatus.superseded ∷ []
edges JobStatus.uncertain =
    JobStatus.reconciled_succeeded ∷ JobStatus.confirmed_not_sent ∷ JobStatus.manual_review
    ∷ JobStatus.cancelled ∷ []
edges JobStatus.confirmed_not_sent =
    JobStatus.ready ∷ JobStatus.cancelled ∷ JobStatus.expired ∷ JobStatus.superseded ∷ []
edges _ = []

unfoldable pub can_transition : JobStatus → JobStatus → Bool
unfolding edges contains
can_transition src dst = contains (edges src) dst

-- `transition` returns the new state or raises `TransitionError`.
pub data Transition : Type 0 where
  moved : JobStatus → Transition
  illegal : JobStatus → JobStatus → Transition

unfoldable pub transition : JobStatus → JobStatus → Transition
unfolding can_transition
transition src dst = if can_transition src dst then moved dst else illegal src dst

unfoldable pub is_unsent : JobStatus → Bool
unfolding unsent contains
is_unsent status = contains unsent status
