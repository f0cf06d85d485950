-- ===== src/Storage/Maps.antt =====
-- runtime/storage/repos.py: the message map, its writes and lookups. The map is a dict by the columns
-- of its unique constraint, in insertion order.
use tdaudiibncba.Common.{
  ℕ, suc, ℤ, String, Bool, true, false, ◌&&◌, Option, none, some, List, [], ◌∷◌, ◌==◌, ltb, is_some,
  contains, map, if◌then◌else◌, string_eq, nat_eq, int_eq, list_eq, pair_eq,
}
use tdaudiibncba.Common.Decimal.{Text}
use tdaudiibncba.Common.Dict
use tdaudiibncba.Common.Dict.{Dict}
use tdaudiibncba.Planner.Model.{DeliveryPlan}
use tdaudiibncba.Delivery.Status.{status_eq}

pub record MessageMap : Type 0 where
  pub id : String
  pub tenant_id : String
  pub project_id : String
  pub rule_id : String
  pub route_id : String
  pub rule_version_at_create : ℕ
  pub source_scope : Text
  pub source_chat_id : ℤ
  pub source_message_id : ℤ
  pub source_album_id : Option ℤ
  pub source_member_index : Option ℕ
  pub sender_account_id : String
  pub target_chat_id : ℤ
  pub target_topic_id : Option ℤ
  pub target_message_id : ℤ
  pub output_part_index : ℕ
  pub last_applied_revision : ℕ
  pub delivery_job_id : Option String
  pub status : String
  pub deleted_at : Option ℕ

-- uq_message_map_route_output
abbrev pub MapKey : Type 0
MapKey = String × (String × (String × (Text × (ℤ × (ℤ × ℕ)))))

abbrev pub Maps : Type 0
Maps = Dict MapKey MessageMap

abbrev pub map_key : MessageMap → MapKey
map_key row = (
  row.tenant_id,
  (
    row.project_id,
    (
      row.route_id,
      (row.source_scope, (row.source_chat_id, (row.source_message_id, row.output_part_index))),
    ),
  ),
)

-- The flush of a new row; a key that is there is the IntegrityError, after which nothing is added.
unfoldable pub insert_map : MessageMap → Maps → Bool × Maps
insert_map row maps =
    if is_some (Dict.get maps (map_key row))
    then (false, maps)
    else (true, Dict.put maps (map_key row) row)

-- `MappingRepository.record`
abbrev pub map_of_plan :
    DeliveryPlan → ℤ → String → String → Option String → ℕ → Option ℕ → String → MessageMap
map_of_plan plan target_message_id tenant_id project_id job_id output_part_index member_index id =
    record {
      id = id;
      tenant_id = tenant_id;
      project_id = project_id;
      rule_id = plan.rule_id;
      route_id = plan.route_id;
      rule_version_at_create = plan.rule_version;
      source_scope = plan.source_scope;
      source_chat_id = plan.source_chat_id;
      source_message_id = plan.source_message_id;
      source_album_id = plan.grouped_id;
      source_member_index = member_index;
      sender_account_id = plan.account_id;
      target_chat_id = plan.target_chat_id;
      target_topic_id = plan.target_topic_id;
      target_message_id = target_message_id;
      output_part_index = output_part_index;
      last_applied_revision = plan.revision;
      delivery_job_id = job_id;
      status = "delivered";
      deleted_at = none;
    }

unfoldable pub record_map :
    DeliveryPlan
    → ℤ
    → String
    → String
    → Option String
    → ℕ
    → Option ℕ
    → String
    → Maps
    → Option String × Maps
record_map plan target_message_id tenant_id project_id job_id output_part_index member_index id
      maps =
    let row =
      map_of_plan plan target_message_id tenant_id project_id job_id output_part_index member_index
        id in
    let (inserted, maps') = insert_map row maps in
    if inserted then (some id, maps') else (none, maps')

abbrev pub is_live : MessageMap → Bool
is_live row = elim row.deleted_at [ none ↦ true | some t ↦ false ]

-- `lookup_many`
unfoldable pub lookup_many : Text → ℤ → List ℤ → Maps → List MessageMap
lookup_many source_scope source_chat_id source_message_ids [] = []
lookup_many source_scope source_chat_id source_message_ids ((key, row) ∷ maps) =
    let rest = lookup_many source_scope source_chat_id source_message_ids maps in
    if (row.source_scope == source_scope)
      && (row.source_chat_id == source_chat_id)
      && contains source_message_ids row.source_message_id
      && is_live row
    then row ∷ rest
    else rest

-- Stable insertion by `output_part_index`.
unfoldable pub insert_by_part : MessageMap → List MessageMap → List MessageMap
insert_by_part row [] = row ∷ []
insert_by_part row (other ∷ rows) =
    let rest = insert_by_part row rows in
    if ltb other.output_part_index row.output_part_index then other ∷ rest else row ∷ other ∷ rows

unfoldable pub live_parts : String → Text → ℤ → ℤ → Maps → List MessageMap
live_parts route_id source_scope source_chat_id source_message_id [] = []
live_parts route_id source_scope source_chat_id source_message_id ((key, row) ∷ maps) =
    let rest = live_parts route_id source_scope source_chat_id source_message_id maps in
    if (row.route_id == route_id)
      && (row.source_scope == source_scope)
      && (row.source_chat_id == source_chat_id)
      && (row.source_message_id == source_message_id)
      && is_live row
    then insert_by_part row rest
    else rest

unfoldable pub find_target_message_ids : String → Text → ℤ → ℤ → Maps → List ℤ
find_target_message_ids route_id source_scope source_chat_id source_message_id maps =
    map (λ (row : MessageMap). row.target_message_id)
      (live_parts route_id source_scope source_chat_id source_message_id maps)

abbrev pub is_row : String → MessageMap → Bool
is_row map_id row = row.id == map_id

abbrev pub tombstoned : ℕ → MessageMap → MessageMap
tombstoned now row = record row { deleted_at = some now; status = "deleted" }

-- The UPDATE of `mark_deleted`, and its row count.
unfoldable pub tombstone_rows : String → ℕ → Maps → Maps
tombstone_rows map_id now [] = []
tombstone_rows map_id now ((key, row) ∷ maps) =
    (key, if is_row map_id row then tombstoned now row else row) ∷ tombstone_rows map_id now maps

unfoldable pub count_rows : String → Maps → ℕ
count_rows map_id [] = 0
count_rows map_id ((key, row) ∷ maps) =
    let rest = count_rows map_id maps in if is_row map_id row then suc rest else rest

unfoldable pub mark_deleted : String → ℕ → Maps → Bool × Maps
mark_deleted map_id now maps = (count_rows map_id maps == 1, tombstone_rows map_id now maps)
