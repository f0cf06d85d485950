-- ===== src/Storage/Batches.antt =====
-- runtime/storage/repos.py: the batches of the inbox, next_unprocessed and drain_to_jobs, and the
-- lookup of one target message.
use tdaudiibncba.Common.{
  ℕ, zero, suc, ◌+◌, ℤ, String, true, ◌&&◌, List, [], ◌∷◌, ◌==◌, ltb, length, if◌then◌else◌,
  string_eq, nat_eq, int_eq, list_eq, pair_eq,
}
use tdaudiibncba.Common.Decimal.{Text}
use tdaudiibncba.Common.Dict
use tdaudiibncba.Common.Dict.{Dict}
use tdaudiibncba.Planner.Model.{DeliveryPlan}
use tdaudiibncba.Storage.Inbox.{EventInbox, InboxKey}
use tdaudiibncba.Storage.Jobs.{Jobs, insert_plans}
use tdaudiibncba.Storage.Maps.{Maps, is_live}

-- ORDER BY ingest_seq, in insertion order where that is equal.
unfoldable pub insert_by_seq : EventInbox → List EventInbox → List EventInbox
insert_by_seq row [] = row ∷ []
insert_by_seq row (first ∷ rows) =
    let rest = insert_by_seq row rows in
    if ltb first.ingest_seq row.ingest_seq then first ∷ rest else row ∷ first ∷ rows

unfoldable pub unprocessed : Dict InboxKey EventInbox → List EventInbox
unprocessed [] = []
unprocessed ((key, row) ∷ inbox) =
    let rest = unprocessed inbox in if row.processed then rest else insert_by_seq row rest

-- LIMIT
unfoldable pub limited {ℓ} : {A : Type ℓ} → ℕ → List A → List A
limited zero rows = []
limited (suc n) [] = []
limited (suc n) (row ∷ rows) = row ∷ limited n rows

unfoldable pub next_unprocessed : ℕ → Dict InboxKey EventInbox → List EventInbox
next_unprocessed limit inbox = limited limit (unprocessed inbox)

abbrev pub row_key : EventInbox → InboxKey
row_key row =
    (row.source_scope, (row.source_chat_id, (row.source_message_id, (row.kind, row.revision))))

-- `row.processed = True`
unfoldable pub mark_processed : EventInbox → Dict InboxKey EventInbox → Dict InboxKey EventInbox
mark_processed row inbox = Dict.put inbox (row_key row) (record row { processed = true })

-- The tables of one drain, which are committed together at its end.
pub record DrainTables : Type 0 where
  pub jobs : Jobs
  pub inbox : Dict InboxKey EventInbox

abbrev pub shifted : ℕ → (ℕ → String) → ℕ → String
shifted k ids n = ids (n + k)

-- `plans_for` is an argument of the source; each plan that is inserted takes the next id.
unfoldable pub drain_to_jobs :
    List EventInbox
    → (EventInbox → List DeliveryPlan)
    → String
    → String
    → (ℕ → String)
    → ℕ
    → DrainTables
    → DrainTables
drain_to_jobs [] plans_for tenant_id project_id ids now db = db
drain_to_jobs (row ∷ rows) plans_for tenant_id project_id ids now db =
    let plans = plans_for row in
    drain_to_jobs rows plans_for tenant_id project_id (shifted (length plans) ids) now (record {
      jobs = insert_plans plans tenant_id project_id ids now db.jobs;
      inbox = mark_processed row db.inbox;
    })

-- `scalar_one_or_none`: more than one row is an exception.
pub data OneRow : Type 0 where
  no_row : OneRow
  one_row : ℤ → OneRow
  many_rows : OneRow

abbrev pub and_one : ℤ → OneRow → OneRow
and_one target no_row = one_row target
and_one target (one_row t) = many_rows
and_one target many_rows = many_rows

unfoldable pub find_target_message_id : String → Text → ℤ → ℤ → Maps → OneRow
find_target_message_id route_id source_scope source_chat_id source_message_id [] = no_row
find_target_message_id route_id source_scope source_chat_id source_message_id ((key, row) ∷ maps) =
    let rest = find_target_message_id route_id source_scope source_chat_id source_message_id maps in
    if (row.route_id == route_id)
      && (row.source_scope == source_scope)
      && (row.source_chat_id == source_chat_id)
      && (row.source_message_id == source_message_id)
      && is_live row
      && (row.output_part_index == 0)
    then and_one row.target_message_id rest
    else rest
