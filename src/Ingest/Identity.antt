-- ===== src/Ingest/Identity.antt =====
-- What the scopes and keys of source events tell apart (runtime/ingest/normalizer.py).
use tdaudiibncba.Common.{
  ℕ, ℤ, ◌^◌, ◌≤◌, ◌<◌, String, ◌≡◌, ◌≢◌, refl, sym, ap, subst, ◌∙◌, ◌⊎◌, inl, inr, Option, none,
  some, [], ◌∷◌, ◌==◌, arith, nat_eq, string_eq, Bool-cases, Option-cases, if◌then◌else◌,
}
use mathlib.Core.List.{append_assoc}
use tdaudiibncba.Common.Decimal.{
  Text, ColonFree, codes, codes-injective, show_nat-injective, show_nat-ColonFree, show_int,
  show_int-injective, show_int-ColonFree, ◌⋆◌, split-first, split-last, not-ColonFree,
}
use tdaudiibncba.Planner.Model.{EventKind, SourceEvent, event_kind_value}
use tdaudiibncba.Ingest.Normalizer.{
  ChatClass, RawUpdate, source_scope_for, tombstone_revision, fingerprint_revision, event_revision,
  normalize, dedup_key,
}

event_kind_value-ColonFree : (k : EventKind) → ColonFree (codes (event_kind_value k))
unfolding event_kind_value
event_kind_value-ColonFree EventKind.create = omega arith
event_kind_value-ColonFree _ = omega arith

-- The three values begin with three letters.
abbrev kind_by_letter : Text → EventKind
kind_by_letter [] = EventKind.create
kind_by_letter (c ∷ _) =
    if c == b'c' then EventKind.create else if c == b'e' then EventKind.edit else EventKind.delete

kind_by_letter-value : (k : EventKind) → kind_by_letter (codes (event_kind_value k)) ≡ k
unfolding event_kind_value
kind_by_letter-value EventKind.create = refl
kind_by_letter-value _ = refl

pub event_kind_value-injective :
    (k l : EventKind) → codes (event_kind_value k) ≡ codes (event_kind_value l) → k ≡ l
event_kind_value-injective k l h =
    sym (kind_by_letter-value k) ∙ ap kind_by_letter h ∙ kind_by_letter-value l

pub record SameSource (a b : SourceEvent) : Type 0 where
  pub source_scope : a.source_scope ≡ b.source_scope
  pub source_chat_id : a.source_chat_id ≡ b.source_chat_id
  pub source_message_id : a.source_message_id ≡ b.source_message_id
  pub kind : a.kind ≡ b.kind
  pub revision : a.revision ≡ b.revision

-- Two events with one dedup key are the same revision of the same message: scope, chat, message,
-- kind and revision agree, although a scope itself contains colons.
pub dedup_key-injective : (a b : SourceEvent) → dedup_key a ≡ dedup_key b → SameSource a b
unfolding dedup_key
dedup_key-injective a b e =
    let (e₁, v) =
      split-last _ _ _ _ (show_nat-ColonFree a.revision) (show_nat-ColonFree b.revision) e in
    let (e₂, k) =
      split-last _ _ _ _ (event_kind_value-ColonFree a.kind) (event_kind_value-ColonFree b.kind)
        e₁ in
    let (e₃, m) =
      split-last _ _ _ _ (show_int-ColonFree a.source_message_id)
        (show_int-ColonFree b.source_message_id) e₂ in
    let (s, c) =
      split-last _ _ _ _ (show_int-ColonFree a.source_chat_id) (show_int-ColonFree b.source_chat_id)
        e₃ in
    record {
      source_scope = s;
      source_chat_id = show_int-injective _ _ c;
      source_message_id = show_int-injective _ _ m;
      kind = event_kind_value-injective _ _ k;
      revision = show_nat-injective _ _ v;
    }

abbrev pub broad : ℤ → Text
broad chat = codes "peer" ⋆ show_int chat

abbrev pub narrow : ℤ → String → Text
narrow chat account = codes "peer" ⋆ show_int chat ⋆ codes "acct" ⋆ codes account

scope_cases :
    (c : ChatClass) (chat : ℤ) (account : String)
    → ((c ≡ ChatClass.broadcast) × (source_scope_for c chat account ≡ broad chat))
      ⊎ ((c ≢ ChatClass.broadcast) × (source_scope_for c chat account ≡ narrow chat account))
unfolding source_scope_for
scope_cases ChatClass.broadcast chat account = inl (refl, refl)
scope_cases _ chat account = inr ((λ e. cc), refl)

-- The account stands behind the chat in a scope that has one.
narrow_parts :
    (chat : ℤ) (account : String)
    → narrow chat account ≡ codes "peer" ⋆ (show_int chat ⋆ (codes "acct" ⋆ codes account))
narrow_parts chat account = simp append_assoc

peer-ColonFree : ColonFree (codes "peer")
peer-ColonFree = omega arith

acct-ColonFree : ColonFree (codes "acct")
acct-ColonFree = omega arith

after_peer : (x y : Text) → codes "peer" ⋆ x ≡ codes "peer" ⋆ y → x ≡ y
after_peer x y p = (split-first (codes "peer") (codes "peer") x y peer-ColonFree peer-ColonFree p).1

broad-injective : (c d : ℤ) → broad c ≡ broad d → c ≡ d
broad-injective c d p = show_int-injective c d (after_peer _ _ p)

narrow-injective : (c d : ℤ) (a b : String) → narrow c a ≡ narrow d b → (c ≡ d) × (a ≡ b)
narrow-injective c d a b p =
    let (x, q) =
      split-first (show_int c) (show_int d) _ _ (show_int-ColonFree c) (show_int-ColonFree d)
        (after_peer _ _ (sym (narrow_parts c a) ∙ p ∙ narrow_parts d b)) in
    let (_, r) =
      split-first (codes "acct") (codes "acct") (codes a) (codes b) acct-ColonFree acct-ColonFree
        q in
    (show_int-injective c d x, codes-injective a b r)

pub broad≢narrow : (c d : ℤ) (b : String) → broad c ≢ narrow d b
broad≢narrow c d b p = not-ColonFree (show_int d) (codes "acct" ⋆ codes b) (
    subst ColonFree
      (after_peer (show_int c) (show_int d ⋆ (codes "acct" ⋆ codes b)) (p ∙ narrow_parts d b))
      (show_int-ColonFree c))

-- Two receiving accounts share a scope only for one chat, and only if the chat is a broadcast for
-- both or they are one account: the views of a small group never merge.
pub source_scope_for-injective :
    (c d : ChatClass) (chat chat' : ℤ) (a b : String)
    → source_scope_for c chat a ≡ source_scope_for d chat' b
    → (chat ≡ chat')
      × (((c ≡ ChatClass.broadcast) × (d ≡ ChatClass.broadcast))
          ⊎ ((c ≢ ChatClass.broadcast) × (d ≢ ChatClass.broadcast) × (a ≡ b)))
source_scope_for-injective c d chat chat' a b p = elim (scope_cases c chat a) [
  | inl (e, q) ↦ elim (scope_cases d chat' b) [
    | inl (e', q') ↦ (broad-injective chat chat' (sym q ∙ p ∙ q'), inl (e, e'))
    | inr (n, q') ↦ absurd (broad≢narrow chat chat' b (sym q ∙ p ∙ q'))
  ]
  | inr (n, q) ↦ elim (scope_cases d chat' b) [
    | inl (e, q') ↦ absurd (broad≢narrow chat' chat a (sym q' ∙ sym p ∙ q))
    | inr (n', q') ↦
        let (x, y) = narrow-injective chat chat' a b (sym q ∙ p ∙ q') in (x, inr (n, n', y))
  ]
]

fingerprint_bound :
    (hash : String → ℤ) (o : Option String) → fingerprint_revision hash o ≤ tombstone_revision
fingerprint_bound hash none = omega arith
fingerprint_bound hash (some h) = elim (Bool-cases (h == "")) [
  | inl e ↦ rw e (omega arith)
  | inr e ↦ rw e (omega arith)
]

revision_bound :
    (hash : String → ℤ) (kind : EventKind) (raw : RawUpdate)
    → ((ts : ℕ) → raw.edit_date_ts ≡ some ts → ts < 2 ^ 31)
    → event_revision hash kind raw ≤ tombstone_revision
unfolding event_revision
revision_bound hash EventKind.create raw h = omega arith
revision_bound hash EventKind.edit raw h = elim (Option-cases raw.edit_date_ts) [
  | inl e ↦ rw e (fingerprint_bound hash raw.content_hash)
  | inr (ts, e) ↦ rw e (omega (arith, h ts e))
]
revision_bound hash EventKind.delete raw h = omega arith

-- The tombstone's revision is at least every other, whatever `hash` answers, as long as the date of
-- an edit lies before 2 ** 31 seconds (January 2038).
pub revision-le-tombstone :
    (hash : String → ℤ) (raw deletion : RawUpdate) (account : String)
    → deletion.kind ≡ EventKind.delete
    → ((ts : ℕ) → raw.edit_date_ts ≡ some ts → ts < 2 ^ 31)
    → (normalize hash raw account).revision ≤ (normalize hash deletion account).revision
unfolding normalize event_revision
revision-le-tombstone hash raw deletion account e h = rw e (revision_bound hash raw.kind raw h)
