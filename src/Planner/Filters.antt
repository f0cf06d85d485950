-- ===== src/Planner/Filters.antt =====
-- runtime/planner/planner.py: which rules an event matches, and the filters of a rule.
use tdaudiibncba.Common.{
  ℤ, String, Bool, true, false, not, ◌&&◌, ◌||◌, Option, none, some, List, [], ◌∷◌, ◌++◌, ◌==◌,
  contains, is_some, if◌then◌else◌, string_eq, int_eq, option_eq, list_eq, nat_eq,
}
use tdaudiibncba.Planner.Model.{
  SourceEvent, FilterSettings, FilterEntry, settings, other, RuleSnapshot,
}

unfoldable pub matches_rule : SourceEvent → RuleSnapshot → Bool
matches_rule event rule =
    if not (event.account_id == rule.account_id)
    then false
    else if not (event.source_scope == rule.source_scope)
        || not (event.source_chat_id == rule.source_chat_id)
    then false
    else if is_some rule.source_topic_id && not (event.topic_id == rule.source_topic_id)
    then false
    else if event.protected
    then false
    else true

-- The ids that a key lists in one entry: `f.get(key)` if the entry is a dict, and nothing else.
abbrev pub listed {ℓ} : {A : Type ℓ} → (FilterSettings → Option (List A)) → FilterEntry → List A
listed key (settings f) = elim (key f) [ none ↦ [] | some ids ↦ ids ]
listed key other = []

-- The union of a key's ids over the entries; a set is a list that is only searched.
unfoldable pub union_of {ℓ} :
    {A : Type ℓ} → (FilterSettings → Option (List A)) → List FilterEntry → List A
union_of key [] = []
union_of key (f ∷ fs) = listed key f ++ union_of key fs

-- `allowed or None`: an empty union means that the filter is off.
abbrev pub nonempty {ℓ} : {A : Type ℓ} → List A → Option (List A)
nonempty [] = none
nonempty (x ∷ xs) = some (x ∷ xs)

unfoldable pub sender_whitelist : RuleSnapshot → Option (List ℤ)
sender_whitelist rule = nonempty (union_of (λ f. f.sender_user_ids) rule.filters)

unfoldable pub media_whitelist : RuleSnapshot → Option (List String)
media_whitelist rule = nonempty (union_of (λ f. f.media_kinds) rule.filters)

unfoldable pub sender_blacklist : RuleSnapshot → List ℤ
sender_blacklist rule = union_of (λ f. f.blocked_sender_ids) rule.filters

abbrev pub bot_flag : FilterEntry → Bool
bot_flag (settings f) = f.exclude_bots
bot_flag other = false

unfoldable pub any_bot_flag : List FilterEntry → Bool
any_bot_flag [] = false
any_bot_flag (f ∷ fs) = bot_flag f || any_bot_flag fs

unfoldable pub excludes_bots : RuleSnapshot → Bool
unfolding any_bot_flag
excludes_bots rule = any_bot_flag rule.filters

-- `x or default` on an optional string: None and "" give the default.
abbrev pub or_default : Option String → String → String
or_default none d = d
or_default (some s) d = if s == "" then d else s

abbrev pub sender_in : Option ℤ → List ℤ → Bool
sender_in none ids = false
sender_in (some i) ids = contains ids i

abbrev pub outside : Option (List ℤ) → Option ℤ → Bool
outside none sender = false
outside (some ids) sender = not (sender_in sender ids)

abbrev pub outside_kinds : Option (List String) → String → Bool
outside_kinds none kind = false
outside_kinds (some kinds) kind = not (contains kinds kind)

unfoldable pub passes_filters : SourceEvent → RuleSnapshot → Bool
passes_filters event rule =
    if excludes_bots rule && event.sender_is_bot
    then false
    else if sender_in event.sender_id (sender_blacklist rule)
    then false
    else if outside (sender_whitelist rule) event.sender_id
    then false
    else if outside_kinds (media_whitelist rule) (or_default event.media_kind "text")
    then false
    else true
