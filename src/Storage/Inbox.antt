-- ===== src/Storage/Inbox.antt =====
-- runtime/storage/repos.py, EventInboxRepository.ingest, on the two tables that it writes. A table is
-- a dict by the columns of its unique constraint, in insertion order: that key standing twice is the
-- IntegrityError. The random ids and the creation times are left out.
use tdaudiibncba.Common.{
  ℕ, ℤ, String, Bool, true, false, Option, none, some, ◌==◌, ltb, is_some, if◌then◌else◌, string_eq,
  nat_eq, int_eq, list_eq, pair_eq,
}
use tdaudiibncba.Common.Decimal.{Text, codes, show_nat, show_int, ◌⋆◌}
use tdaudiibncba.Common.Dict
use tdaudiibncba.Common.Dict.{Dict}
use tdaudiibncba.Planner.Model.{SourceEvent, event_kind_value, is_delete}

pub record SourceMessage : Type 0 where
  pub tenant_id : String
  pub project_id : String
  pub source_scope : Text
  pub source_chat_id : ℤ
  pub source_message_id : ℤ
  pub latest_revision : ℕ
  pub grouped_id : Option ℤ
  pub content_hash : Option String
  pub tombstone : Bool

pub record EventInbox : Type 0 where
  pub event_id : Text
  pub source_scope : Text
  pub source_chat_id : ℤ
  pub source_message_id : ℤ
  pub kind : String
  pub revision : ℕ
  pub account_id : String
  pub payload_ref : Option String
  pub payload_hash : Option String
  pub grouped_id : Option ℤ
  pub topic_id : Option ℤ
  pub reply_to_source_id : Option ℤ
  pub protected : Bool
  pub source_sender_id : Option ℤ
  pub source_media_kind : Option String
  pub source_sender_bot : Bool
  pub ingest_seq : ℕ
  pub processed : Bool

-- uq_source_message_identity
abbrev pub SourceKey : Type 0
SourceKey = String × (String × (Text × (ℤ × ℤ)))

-- uq_event_inbox_dedup
abbrev pub InboxKey : Type 0
InboxKey = Text × (ℤ × (ℤ × (String × ℕ)))

pub record Tables : Type 0 where
  pub sources : Dict SourceKey SourceMessage
  pub inbox : Dict InboxKey EventInbox

unfoldable pub source_key : SourceEvent → String → String → SourceKey
source_key event tenant_id project_id =
    (tenant_id, (project_id, (event.source_scope, (event.source_chat_id, event.source_message_id))))

unfoldable pub inbox_key : SourceEvent → InboxKey
inbox_key event = (
  event.source_scope,
  (event.source_chat_id, (event.source_message_id, (event_kind_value event.kind, event.revision))),
)

-- The SourceMessage of the first event of a message.
abbrev pub first_source : SourceEvent → String → String → SourceMessage
first_source event tenant_id project_id = record {
  tenant_id = tenant_id;
  project_id = project_id;
  source_scope = event.source_scope;
  source_chat_id = event.source_chat_id;
  source_message_id = event.source_message_id;
  latest_revision = event.revision;
  grouped_id = event.grouped_id;
  content_hash = event.payload_hash;
  tombstone = false;
}

-- `if event.payload_hash:`, which the empty string fails too.
abbrev pub hash_or : Option String → Option String → Option String
hash_or none old = old
hash_or (some h) old = if h == "" then old else some h

-- `if event.revision > source.latest_revision:`
abbrev pub revised : SourceEvent → SourceMessage → SourceMessage
revised event source =
    if ltb source.latest_revision event.revision
    then record source {
      latest_revision = event.revision;
      content_hash = hash_or event.payload_hash source.content_hash;
    }
    else source

abbrev pub buried : SourceEvent → SourceMessage → SourceMessage
buried event source = if is_delete event.kind then record source { tombstone = true } else source

abbrev pub next_source : SourceEvent → String → String → Option SourceMessage → SourceMessage
next_source event tenant_id project_id none = first_source event tenant_id project_id
next_source event tenant_id project_id (some source) = buried event (revised event source)

abbrev pub inbox_row : SourceEvent → ℕ → EventInbox
inbox_row event ingest_seq = record {
  event_id =
      event.source_scope
      ⋆ show_int event.source_chat_id
      ⋆ show_int event.source_message_id
      ⋆ codes (event_kind_value event.kind)
      ⋆ show_nat event.revision;
  source_scope = event.source_scope;
  source_chat_id = event.source_chat_id;
  source_message_id = event.source_message_id;
  kind = event_kind_value event.kind;
  revision = event.revision;
  account_id = event.account_id;
  payload_ref = event.payload_ref;
  payload_hash = event.payload_hash;
  grouped_id = event.grouped_id;
  topic_id = event.topic_id;
  reply_to_source_id = event.reply_to_source_id;
  protected = event.protected;
  source_sender_id = event.sender_id;
  source_media_kind = event.media_kind;
  source_sender_bot = event.sender_is_bot;
  ingest_seq = ingest_seq;
  processed = false;
}

-- Both writes and the commit: an inbox key that is there rolls both back.
unfoldable pub ingest : SourceEvent → String → String → ℕ → Tables → Bool × Tables
ingest event tenant_id project_id ingest_seq db =
    let key = source_key event tenant_id project_id in
    let source = next_source event tenant_id project_id (Dict.get db.sources key) in
    if is_some (Dict.get db.inbox (inbox_key event)) then (false, db) else (
      true,
      record {
        sources = Dict.put db.sources key source;
        inbox = Dict.put db.inbox (inbox_key event) (inbox_row event ingest_seq);
      },
    )
