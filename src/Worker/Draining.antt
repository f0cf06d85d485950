-- ===== src/Worker/Draining.antt =====
-- runtime/worker/runner.py: drain_inbox, which plans a batch of the inbox over a view of the message
-- map that it fetches first.
use tdaudiibncba.Common.{
  ℕ, ℤ, String, Bool, true, Option, none, some, List, [], ◌∷◌, ◌++◌, length, is_some, ◌&&◌,
  if◌then◌else◌, string_eq, int_eq, nat_eq, list_eq, pair_eq,
}
use tdaudiibncba.Common.Decimal.{Text}
use tdaudiibncba.Common.Dict
use tdaudiibncba.Common.Dict.{Dict}
use tdaudiibncba.Planner.Model.{SourceEvent, RuleSnapshot, DeliveryPlan}
use tdaudiibncba.Planner.Planning.{MappingView, Draws, plan}
use tdaudiibncba.Storage.Inbox.{EventInbox}
use tdaudiibncba.Storage.Maps.{MessageMap, Maps, lookup_many}
use tdaudiibncba.Storage.Batches.{DrainTables, next_unprocessed, drain_to_jobs}
use tdaudiibncba.Worker.Runner.{event_from_inbox}

abbrev pub ViewKey : Type 0
ViewKey = String × (Text × (ℤ × ℤ))

abbrev pub view_key : MessageMap → ViewKey
view_key row = (row.route_id, (row.source_scope, (row.source_chat_id, row.source_message_id)))

-- `_DictMappingView.__init__`: of two rows with one key the later one stays.
unfoldable pub view_rows : List MessageMap → Dict ViewKey MessageMap → Dict ViewKey MessageMap
view_rows [] view = view
view_rows (row ∷ rows) view = view_rows rows (Dict.put view (view_key row) row)

abbrev pub target_of : Option MessageMap → Option ℤ
target_of none = none
target_of (some row) = some row.target_message_id

abbrev pub sender_of : Option MessageMap → Option String
sender_of none = none
sender_of (some row) = some row.sender_account_id

unfoldable pub dict_mapping_view : List MessageMap → MappingView
dict_mapping_view rows =
    let view = view_rows rows [] in
    record {
      find_target_message_id =
          λ route scope chat message. target_of (Dict.get view (route, (scope, (chat, message))));
      find_sender_account_id =
          λ route scope chat message. sender_of (Dict.get view (route, (scope, (chat, message))));
    }

-- `by_scope`: the message ids of the batch and of what it replies to, by scope and chat. A set is a
-- list that is only searched.
abbrev pub ScopeKey : Type 0
ScopeKey = Text × ℤ

abbrev pub ids_or_empty : Option (List ℤ) → List ℤ
ids_or_empty none = []
ids_or_empty (some ids) = ids

abbrev pub with_reply : Option ℤ → List ℤ → List ℤ
with_reply none ids = ids
with_reply (some reply) ids = reply ∷ ids

unfoldable pub ids_by_scope : List EventInbox → Dict ScopeKey (List ℤ) → Dict ScopeKey (List ℤ)
ids_by_scope [] by_scope = by_scope
ids_by_scope (row ∷ rows) by_scope =
    let key : ScopeKey = (row.source_scope, row.source_chat_id) in
    let ids =
      with_reply row.reply_to_source_id
        (row.source_message_id ∷ ids_or_empty (Dict.get by_scope key)) in
    ids_by_scope rows (Dict.put by_scope key ids)

unfoldable pub prefetch : Dict ScopeKey (List ℤ) → Maps → List MessageMap
prefetch [] maps = []
prefetch (((scope, chat), ids) ∷ by_scope) maps =
    lookup_many scope chat ids maps ++ prefetch by_scope maps

-- `plans_for`; the planner's draws depend on the row.
abbrev pub plans_of :
    MappingView → (String → List RuleSnapshot) → Draws → Option SourceEvent → List DeliveryPlan
plans_of view rules draws none = []
plans_of view rules draws (some event) = (plan view event (rules event.account_id) draws).0

unfoldable pub plans_for :
    List MessageMap
    → (String → List RuleSnapshot)
    → (EventInbox → Draws)
    → EventInbox
    → List DeliveryPlan
plans_for maps rules draws row =
    plans_of (dict_mapping_view maps) rules (draws row) (event_from_inbox row)

-- Whether `event_from_inbox` raises on no row of the batch.
unfoldable pub all_known : List EventInbox → Bool
all_known [] = true
all_known (row ∷ rows) = is_some (event_from_inbox row) && all_known rows

-- `drain_inbox`: the number of rows, and the tables; or an exception, after which nothing of the
-- batch is committed.
unfoldable pub drain_inbox :
    ℕ
    → (String → List RuleSnapshot)
    → (EventInbox → Draws)
    → String
    → String
    → (ℕ → String)
    → ℕ
    → Maps
    → DrainTables
    → Option ℕ × DrainTables
drain_inbox limit rules draws tenant_id project_id ids now maps db =
    let rows = next_unprocessed limit db.inbox in
    let fetched = prefetch (ids_by_scope rows []) maps in
    let drained =
      drain_to_jobs rows (plans_for fetched rules draws) tenant_id project_id ids now db in
    if all_known rows then (some (length rows), drained) else (none, db)
