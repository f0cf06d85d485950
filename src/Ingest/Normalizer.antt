-- ===== src/Ingest/Normalizer.antt =====
-- runtime/ingest/normalizer.py: raw updates become source events.
use tdaudiibncba.Common.{
  ℕ, ℤ, ◌-◌, ◌%◌, ◌^◌, String, Bool, Option, none, some, abs, ◌==◌, string_eq, if◌then◌else◌,
}
use tdaudiibncba.Common.Decimal.{Text, codes, show_nat, show_int, ◌⋆◌}
use tdaudiibncba.Planner.Model.{EventKind, SourceEvent, event_kind_value}

pub data ChatClass : Type 0 where
  broadcast small_group private : ChatClass

-- An edit's time is a POSIX timestamp.
pub record RawUpdate : Type 0 where
  pub kind : EventKind
  pub chat_id : ℤ
  pub message_id : ℤ
  pub chat_class : ChatClass
  pub edit_date_ts : Option ℕ
  pub content_hash : Option String
  pub grouped_id : Option ℤ
  pub reply_to_message_id : Option ℤ
  pub topic_id : Option ℤ
  pub protected : Bool
  pub payload_ref : Option String
  pub sender_id : Option ℤ
  pub media_kind : Option String
  pub sender_is_bot : Bool

unfoldable pub source_scope_for : ChatClass → ℤ → String → Text
source_scope_for ChatClass.broadcast chat_id account_id = codes "peer" ⋆ show_int chat_id
source_scope_for _ chat_id account_id =
    codes "peer" ⋆ show_int chat_id ⋆ codes "acct" ⋆ codes account_id

-- The tombstone's revision.
abbrev pub tombstone_revision : ℕ
tombstone_revision = 2 ^ 31 - 1

-- Python's `hash` of a text differs from process to process: a parameter.
module _ (hash : String → ℤ) where
  -- The revision of an edit without a date: `if raw.content_hash` is false on None and on "".
  abbrev pub fingerprint_revision : Option String → ℕ
  fingerprint_revision none = 2
  fingerprint_revision (some h) = if h == "" then 2 else abs (hash h) % 2 ^ 31

  unfoldable pub event_revision : EventKind → RawUpdate → ℕ
  event_revision EventKind.create raw = 1
  event_revision EventKind.edit raw = elim raw.edit_date_ts [
    | none ↦ fingerprint_revision raw.content_hash
    | some ts ↦ ts
  ]
  event_revision EventKind.delete raw = tombstone_revision

  unfoldable pub normalize : RawUpdate → String → SourceEvent
  unfolding source_scope_for event_revision
  normalize raw account_id = record {
    kind = raw.kind;
    source_scope = source_scope_for raw.chat_class raw.chat_id account_id;
    source_chat_id = raw.chat_id;
    source_message_id = raw.message_id;
    revision = event_revision raw.kind raw;
    account_id = account_id;
    grouped_id = raw.grouped_id;
    payload_ref = raw.payload_ref;
    payload_hash = raw.content_hash;
    reply_to_source_id = raw.reply_to_message_id;
    topic_id = raw.topic_id;
    protected = raw.protected;
    sender_id = raw.sender_id;
    media_kind = raw.media_kind;
    sender_is_bot = raw.sender_is_bot;
  }

unfoldable pub dedup_key : SourceEvent → Text
dedup_key event =
    event.source_scope
    ⋆ show_int event.source_chat_id
    ⋆ show_int event.source_message_id
    ⋆ codes (event_kind_value event.kind)
    ⋆ show_nat event.revision
