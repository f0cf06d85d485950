-- ===== src/Examples/Publishing.antt =====
-- The theorems on published rules, on one rule with one route that two accounts enter.
use tdaudiibncba.Common.{
  ℕ, ℤ, negsuc, String, ◌≡◌, ◌≢◌, refl, true, false, Option, none, some, List, [], ◌∷◌, Memᴰ,
  exists_by, keep, find, contains, pair_beq, ◌==◌, if◌then◌else◌, string_eq, nat_eq,
}
use tdaudiibncba.Common.Spelling.{spell, spelled}
use tdaudiibncba.Common.Dict
use tdaudiibncba.Planner.Model.{CloneMode, RuleSnapshot}
use tdaudiibncba.Ingest.Normalizer.{ChatClass}
use tdaudiibncba.Host.State.{account_of, snapshots}
use tdaudiibncba.Platform.Store.{User}
use tdaudiibncba.Platform.Rules.{
  RuleStatus, CloneRule, CloneTarget, RuleVersion, RuleStore, get_rule, account_in, distinct,
  sender_pool, snapshot,
}
use tdaudiibncba.Platform.Pulling.{uuid_of, serves_account, PulledRow, row_of, pull_rules, pulled}
use tdaudiibncba.Platform.Chats.{
  made, auto_join, enter, change_where, auto_join_pool, latest, route_health,
}
use tdaudiibncba.Platform.Commands.{
  CommandAccount, RuntimeCommand, new_command, by_key, key_used, issue,
}
use tdaudiibncba.Platform.Publishing.{
  Fresh, may_manage, version_of, published_rule, active_of, repeats, topic_taken, put_targets,
  entered, publish, publish_given,
}
use tdaudiibncba.Platform.Versioning.{Published, publish-Published, stale_publish}
use tdaudiibncba.Platform.Reaching.{Plans}
use tdaudiibncba.Platform.Arrival.{publish-Arrives}
use tdaudiibncba.Platform.InForce.{IsInForce, pull_rules-IsInForce}

abbrev operator : User
operator = record { id = 1; is_superuser = true }

abbrev rule : CloneRule
rule = record {
  id = 4;
  tenant_id = 1;
  project_id = 2;
  account_id = 3;
  name = "news";
  mode = CloneMode.copy;
  sync_edit = true;
  sync_delete = true;
  enabled = true;
  current_version = 1;
  status = RuleStatus.published;
  ai_rewrite = "off";
  ad_block = "";
  sender_account_ids = 6 ∷ 6 ∷ [];
  deleted = false;
}

abbrev route : CloneTarget
route = record {
  id = 9;
  rule_id = 4;
  route_id = "r9";
  source_chat_id = negsuc 99;
  target_chat_id = negsuc 499;
  source_chat_ref = some "t.me/source";
  target_chat_ref = none;
  joined_account_id = none;
  source_topic_id = none;
  target_topic_id = none;
  filters = none;
  active = true;
  joined_at = none;
  health_reason = none;
  joined_account_ids = [];
  deleted = false;
}

-- The source chat has moved.
abbrev entered_route : CloneTarget
entered_route = record route {
  source_chat_id = negsuc 199;
  joined_account_id = some 3;
  joined_at = some 40;
  joined_account_ids = 6 ∷ [];
}

abbrev rules : RuleStore
rules = record {
  memberships = [];
  accounts =
      (3, record { uuid = "acc3"; tenant_id = 1; project_id = 2; deleted = false })
      ∷ (6, record { uuid = "acc6"; tenant_id = 1; project_id = 2; deleted = false })
      ∷ [];
  rules = (4, rule) ∷ [];
  targets = (9, route) ∷ [];
  versions = [];
  commands = [];
  jobs = [];
}

abbrev chats : String → Option ℤ
chats ref =
    if ref == "t.me/source"
    then some (negsuc 199)
    else if ref == "-500"
    then some (negsuc 499)
    else none

abbrev join : ℕ → List String → Option (String → Option ℤ)
join account_id refs = some chats

abbrev fresh : Fresh
fresh = record {
  sync_id = 20;
  sync_key = "k20";
  reload_id = 21;
  reload_key = "k21";
  now = 50;
  at = λ id. 40;
}

abbrev version : RuleVersion
version = version_of operator rule (entered_route ∷ []) 50

route_entered : entered join rule fresh rules ≡ made (entered_route ∷ [])
unfolding entered auto_join enter exists_by active_of Dict.get change_where spell spelled
    auto_join_pool keep sender_pool distinct contains
route_entered = refl

abbrev listener : CommandAccount
listener = record { tenant_id = 1; project_id = 2; deleted = false }

abbrev told : String → String → ℕ → RuntimeCommand
told kind key id =
    new_command operator 3 listener
      (record { kind = kind; payload = none; expected_generation = none; dedup_key = some key }) id
      key 50

abbrev after_publishing : RuleStore
after_publishing = record rules {
  rules = (4, published_rule rule) ∷ [];
  targets = (9, entered_route) ∷ [];
  versions = version ∷ [];
  commands = (20, told "SyncChats" "k20" 20) ∷ (21, told "ReloadConfig" "k21" 21) ∷ [];
}

news_given : publish_given join operator rule 1 fresh rules ≡ made (version, after_publishing)
unfolding publish_given active_of repeats contains entered auto_join enter exists_by Dict.get
    change_where spell spelled auto_join_pool keep sender_pool distinct topic_taken put_targets
    Dict.put pair_beq latest route_health by_key issue key_used snapshot
news_given = refl

news_found : get_rule rules 4 ≡ some rule
unfolding get_rule Dict.get
news_found = refl

news_published : publish join operator 4 1 fresh rules ≡ made (version, after_publishing)
unfolding publish
news_published = rw news_found news_given

publish-Published_example :
    (r : CloneRule) × (get_rule rules 4 ≡ some r)
    × (may_manage rules operator r ≡ true)
    × Published join operator r 1 fresh rules version after_publishing
publish-Published_example =
    publish-Published join operator 4 1 fresh rules version after_publishing news_published

stale_publish_example :
    publish_given join operator rule 1 fresh after_publishing ≢ made (version, after_publishing)
stale_publish_example =
    stale_publish join operator operator rule 1 1 fresh fresh rules after_publishing
      after_publishing version version news_given

publish-Arrives_example :
    (s : RuleSnapshot) × Memᴰ s (snapshots (pulled (pull_rules after_publishing 3)) "acc3" [])
    × Plans rule entered_route ChatClass.broadcast
        (account_of (uuid_of (account_in rules.accounts 1 2 3)) "acc3")
        s
publish-Arrives_example =
    publish-Arrives join operator rule 1 fresh rules after_publishing version (entered_route ∷ [])
      entered_route ChatClass.broadcast "acc3" [] news_found refl news_published route_entered
      (Memᴰ.head refl)

abbrev news_row : PulledRow
news_row = row_of rules.accounts (published_rule rule) version

news_pulled : pull_rules after_publishing 3 ≡ news_row ∷ []
unfolding pull_rules serves_account find
news_pulled = refl

pull_rules-IsInForce_example : IsInForce after_publishing.rules after_publishing.versions 3 news_row
pull_rules-IsInForce_example =
    pull_rules-IsInForce after_publishing 3 news_row (rw news_pulled (Memᴰ.head refl))
