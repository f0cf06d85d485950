-- ===== src/Platform/Chats.antt =====
-- telegram-platform/backend/app/tg/service/rule_service.py, route_health, _auto_join and
-- _auto_join_pool: before a rule runs, its accounts enter the chats of its routes. Telegram's answer to
-- an account that asks to enter some chats is a parameter: none is an exception.
use tdaudiibncba.Common.{
  ℕ, ℤ, pos, negsuc, suc, String, Bool, true, false, not, ◌&&◌, ◌||◌, Option, none, some, List, [],
  ◌∷◌, ◌++◌, ◌==◌, ltb, contains, exists_by, keep, if◌then◌else◌, nat_eq, string_eq, option_eq,
}
use tdaudiibncba.Common.Spelling.{joined, spell}
use tdaudiibncba.Common.Dict
use tdaudiibncba.Common.Dict.{Dict}
use tdaudiibncba.Delivery.Status.{JobStatus, status_eq}
use tdaudiibncba.Delivery.Errors.{ErrorClass}
use tdaudiibncba.Storage.Jobs.{DeliveryJob, Jobs}
use tdaudiibncba.Platform.Store.{Account, unless_deleted}
use tdaudiibncba.Platform.Commands.{CommandFailure}
use tdaudiibncba.Platform.Rules.{CloneRule, CloneTarget, distinct, sender_pool}

-- The errors of a request on a rule.
pub data RuleFailure : Type 0 where
  no_rule forbidden rule_disabled version_changed no_targets duplicate_routes : RuleFailure
  no_account unresolved not_joined topic_taken duplicate_version : RuleFailure
  not_issued : CommandFailure → RuleFailure

-- What a request gives; its transaction keeps nothing of one that is refused.
pub data Attempt {ℓ} (A : Type ℓ) : Type ℓ where
  made : A → Attempt A
  refused : RuleFailure → Attempt A

abbrev pub then_try {ℓ κ} : {A : Type ℓ} {B : Type κ} → Attempt A → (A → Attempt B) → Attempt B
then_try (made a) next = next a
then_try (refused e) next = refused e

-- `_TERMINAL`
abbrev pub settled_statuses : List JobStatus
settled_statuses =
    JobStatus.succeeded ∷ JobStatus.reconciled_succeeded ∷ JobStatus.blocked
    ∷ JobStatus.failed_permanent ∷ []

abbrev pub later_of : DeliveryJob → Option DeliveryJob → DeliveryJob
later_of job none = job
later_of job (some best) = if ltb job.updated_at best.updated_at then best else job

-- The job of a route that was settled last; the first row of several at the same time.
unfoldable pub latest : String → Jobs → Option DeliveryJob
latest route_id [] = none
latest route_id ((id, job) ∷ jobs) =
    let rest = latest route_id jobs in
    if (job.route_id == route_id) && contains settled_statuses job.status
    then some (later_of job rest)
    else rest

abbrev pub is_permission : Option ErrorClass → Bool
is_permission (some ErrorClass.permission_blocked) = true
is_permission _ = false

abbrev pub after_joining : ℕ → Option ℕ → Bool
after_joining updated_at none = true
after_joining updated_at (some joined_at) = ltb joined_at updated_at

-- TARGET_LOST
abbrev pub target_lost : String
target_lost = "目标群发不了消息(账号可能被移出/禁言/群已解散)"

abbrev pub verdict_on : CloneTarget → Option DeliveryJob → Option String
verdict_on t none = t.health_reason
verdict_on t (some job) =
    if ((job.status == JobStatus.blocked) || is_permission job.last_error_class)
      && after_joining job.updated_at t.joined_at
    then some target_lost
    else t.health_reason

abbrev pub is_lost : Option String → Bool
is_lost none = false
is_lost (some reason) = not (reason == "")

-- `route_health` of one route
unfoldable pub route_health : Jobs → CloneTarget → Option String
route_health jobs t =
    if is_lost t.health_reason then t.health_reason else verdict_on t (latest t.route_id jobs)

-- str(chat_id)
abbrev pub chat_text : ℤ → String
chat_text (pos n) = spell n
chat_text (negsuc n) = joined "-" (spell (suc n))

-- `ref or str(chat_id)`
abbrev pub ref_or : Option String → ℤ → String
ref_or none chat_id = chat_text chat_id
ref_or (some ref) chat_id = if ref == "" then chat_text chat_id else ref

abbrev pub source_ref : CloneTarget → String
source_ref t = ref_or t.source_chat_ref t.source_chat_id

abbrev pub target_ref : CloneTarget → String
target_ref t = ref_or t.target_chat_ref t.target_chat_id

abbrev pub refs_of : List CloneTarget → List String
refs_of [] = []
refs_of (t ∷ targets) = source_ref t ∷ target_ref t ∷ refs_of targets

abbrev pub target_refs : List CloneTarget → List String
target_refs [] = []
target_refs (t ∷ targets) = target_ref t ∷ target_refs targets

-- The routes for which a test holds are changed, in order, up to the first that cannot be.
unfoldable pub change_where :
    (CloneTarget → Bool)
    → (CloneTarget → Attempt CloneTarget)
    → List CloneTarget
    → Attempt (List CloneTarget)
change_where test change [] = made []
change_where test change (t ∷ targets) =
    let rest = change_where test change targets in
    then_try (if test t then change t else made t) λ t'. then_try rest λ ts. made (t' ∷ ts)

-- `_resolve_or_raise`
abbrev pub resolved : Option ℤ → Attempt ℤ
resolved none = refused RuleFailure.unresolved
resolved (some chat_id) = made chat_id

abbrev pub by_listener : ℕ → (ℕ → ℕ) → (String → Option ℤ) → CloneTarget → Attempt CloneTarget
by_listener account_id at answers t = then_try (resolved (answers (source_ref t))) λ source.
    then_try (resolved (answers (target_ref t))) λ target. made (record t {
      source_chat_id = source;
      target_chat_id = target;
      joined_account_id = some account_id;
      joined_at = some (at t.id);
      health_reason = none;
    })

abbrev pub with_member : ℕ → List ℕ → List ℕ
with_member account_id ids = if contains ids account_id then ids else ids ++ account_id ∷ []

abbrev pub by_sender : ℕ → (String → Option ℤ) → CloneTarget → Attempt CloneTarget
by_sender account_id answers t = then_try (resolved (answers (target_ref t))) λ target.
    made (record t {
      target_chat_id = target;
      joined_account_ids = with_member account_id t.joined_account_ids;
    })

abbrev pub lacks : ℕ → CloneTarget → Bool
lacks account_id t = not (contains t.joined_account_ids account_id)

-- telegram_account_dao.get
abbrev pub has_account : Dict ℕ Account → ℕ → Bool
has_account accounts pk =
    elim (unless_deleted (λ (a : Account). a.deleted) (Dict.get accounts pk)) [
      | none ↦ false
      | some a ↦ true
    ]

module _ (join : ℕ → List String → Option (String → Option ℤ)) (accounts : Dict ℕ Account) where
  abbrev pub answered :
      Option (String → Option ℤ)
      → (CloneTarget → Bool)
      → ((String → Option ℤ) → CloneTarget → Attempt CloneTarget)
      → List CloneTarget
      → Attempt (List CloneTarget)
  answered none test change targets = refused RuleFailure.not_joined
  answered (some answers) test change targets = change_where test (change answers) targets

  -- An account asks to enter the chats of the routes for which a test holds, if there are any.
  unfoldable pub enter :
      ℕ
      → (List CloneTarget → List String)
      → (CloneTarget → Bool)
      → ((String → Option ℤ) → CloneTarget → Attempt CloneTarget)
      → List CloneTarget
      → Attempt (List CloneTarget)
  enter account_id refs test change targets =
      if not (exists_by test targets)
      then made targets
      else if not (has_account accounts account_id)
      then refused RuleFailure.no_account
      else answered (join account_id (distinct (refs (keep test targets)))) test change targets

  -- `_auto_join_pool`
  unfoldable pub auto_join_pool : List ℕ → List CloneTarget → Attempt (List CloneTarget)
  auto_join_pool [] targets = made targets
  auto_join_pool (acc_id ∷ senders) targets =
      then_try (enter acc_id target_refs (lacks acc_id) (by_sender acc_id) targets)
        (auto_join_pool senders)

  abbrev pub for_listener : CloneRule → Jobs → CloneTarget → Bool
  for_listener r jobs t =
      not (t.joined_account_id == some r.account_id) || is_lost (route_health jobs t)

  -- `_auto_join`: where no sender lacks a chat, its loop over the senders changes nothing.
  unfoldable pub auto_join :
      CloneRule → Jobs → (ℕ → ℕ) → List CloneTarget → Attempt (List CloneTarget)
  auto_join r jobs at targets =
      then_try
        (enter r.account_id refs_of (for_listener r jobs) (by_listener r.account_id at) targets)
        (auto_join_pool (keep (λ a. not (a == r.account_id)) (sender_pool r)))
