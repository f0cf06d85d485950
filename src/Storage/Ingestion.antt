-- ===== src/Storage/Ingestion.antt =====
-- What the inbox promises (runtime/storage/repos.py, EventInboxRepository.ingest).
use tdaudiibncba.Common.{
  some_inj, none≢some, ℕ, ◌≤◌, String, ◌≡◌, refl, ap, subst, ◌∙◌, inl, inr, true, false, Option,
  none, some, ◌==◌, is_some, eq_of_beq, string_eq, nat_eq, int_eq, list_eq, pair_eq, arith,
  Bool-cases, beq_refl, max,
}
use tdaudiibncba.Common.Dict
use tdaudiibncba.Common.Dict.{Dict, get-put, get-put_cases, Distinct, Distinct-put}
use tdaudiibncba.Planner.Model.{SourceEvent}
use tdaudiibncba.Storage.Inbox.{
  SourceMessage, EventInbox, SourceKey, InboxKey, Tables, source_key, inbox_key, revised,
  next_source, inbox_row, ingest,
}

found {ℓ} : {A : Type ℓ} (o : Option A) (a : A) → o ≡ some a → is_some o ≡ true
found o a e = rw e

own_source :
    (db : Dict SourceKey SourceMessage) (k : SourceKey) (v : SourceMessage)
    → Dict.get (Dict.put db k v) k ≡ some v
own_source db k v = rw (get-put db k k v, beq_refl k)

own_row :
    (db : Dict InboxKey EventInbox) (k : InboxKey) (v : EventInbox)
    → Dict.get (Dict.put db k v) k ≡ some v
own_row db k v = rw (get-put db k k v, beq_refl k)

-- After `ingest`, whatever it answers, the event's key is in the inbox.
key_stored :
    (event : SourceEvent) (tenant project : String) (seq : ℕ) (db : Tables)
    → is_some (Dict.get (ingest event tenant project seq db).1.inbox (inbox_key event)) ≡ true
unfolding ingest
key_stored event tenant project seq db =
    elim (Bool-cases (is_some (Dict.get db.inbox (inbox_key event)))) [
      | inl p ↦ rw p p
      | inr p ↦ rw p (
          found
            (Dict.get (Dict.put db.inbox (inbox_key event) (inbox_row event seq)) (inbox_key event))
            (inbox_row event seq) (own_row db.inbox (inbox_key event) (inbox_row event seq)))
    ]

refuses :
    (event : SourceEvent) (tenant project : String) (seq : ℕ) (db : Tables)
    → is_some (Dict.get db.inbox (inbox_key event)) ≡ true
    → ingest event tenant project seq db ≡ (false, db)
unfolding ingest
refuses event tenant project seq db p = rw p

-- An event is taken in once: right after it has been ingested, an event with the same scope, chat,
-- message, kind and revision is refused, for whatever tenant and project it comes, and leaves both
-- tables as they were.
pub ingest-replay :
    (event again : SourceEvent) (tenant project tenant' project' : String) (seq seq' : ℕ)
    (db : Tables)
    → inbox_key again ≡ inbox_key event
    → let db' = (ingest event tenant project seq db).1 in
      ingest again tenant' project' seq' db' ≡ (false, db')
ingest-replay event again tenant project tenant' project' seq seq' db same =
    let db' = (ingest event tenant project seq db).1 in
    refuses again tenant' project' seq' db' (
      ap (λ (k : InboxKey). is_some (Dict.get db'.inbox k)) same
      ∙ key_stored event tenant project seq db)

-- A source row only gains: its revision and its tombstone.
abbrev pub SourceGrows : Option SourceMessage → Option SourceMessage → Type 0
SourceGrows none new = Unit
SourceGrows (some old) none = ⊥
SourceGrows (some old) (some new) =
    (old.latest_revision ≤ new.latest_revision) × (old.tombstone ≡ true → new.tombstone ≡ true)

SourceGrows-refl : (o : Option SourceMessage) → SourceGrows o o
SourceGrows-refl none = tt
SourceGrows-refl (some s) = (omega arith, λ h. h)

revised_latest :
    (event : SourceEvent) (s : SourceMessage)
    → (revised event s).latest_revision ≡ max s.latest_revision event.revision
revised_latest event s = ground arith

next_source-grows :
    (event : SourceEvent) (tenant project : String) (o : Option SourceMessage)
    → SourceGrows o (some (next_source event tenant project o))
next_source-grows event tenant project none = tt
next_source-grows event tenant project (some s) = (ground arith, λ h. ground arith)

module _ (event : SourceEvent) (tenant project : String) (seq : ℕ) (db : Tables) where
  sources_after :
      (is_some (Dict.get db.inbox (inbox_key event)) ≡ false)
      → (ingest event tenant project seq db).1.sources
        ≡ Dict.put db.sources (source_key event tenant project) (
            next_source event tenant project
              (Dict.get db.sources (source_key event tenant project)))
  unfolding ingest
  sources_after p = rw p

  put_grows :
      (k j : SourceKey) (v : SourceMessage)
      → SourceGrows (Dict.get db.sources k) (some v)
      → SourceGrows (Dict.get db.sources j) (Dict.get (Dict.put db.sources k v) j)
  put_grows k j v h = elim (Bool-cases (k == j)) [
    | inl same ↦
        subst
          (λ (x : SourceKey).
            SourceGrows (Dict.get db.sources x) (Dict.get (Dict.put db.sources k v) x))
          (eq_of_beq k j same) (rw (own_source db.sources k v) h)
    | inr other ↦ rw (get-put db.sources k j v, other) (SourceGrows-refl (Dict.get db.sources j))
  ]

  -- Ingesting never lowers the latest revision of a source message, never lifts a tombstone and
  -- never loses a row, of whatever message.
  pub ingest-SourceGrows :
      (j : SourceKey)
      → SourceGrows
          (Dict.get db.sources j)
          (Dict.get (ingest event tenant project seq db).1.sources j)
  ingest-SourceGrows j =
      let k = source_key event tenant project in
      elim (Bool-cases (is_some (Dict.get db.inbox (inbox_key event)))) [
        | inl p ↦
            rw (refuses event tenant project seq db p) (SourceGrows-refl (Dict.get db.sources j))
        | inr p ↦ rw (sources_after p) (
            put_grows k j (next_source event tenant project (Dict.get db.sources k))
              (next_source-grows event tenant project (Dict.get db.sources k)))
      ]

-- The source row that an inbox key belongs to, for one tenant and project.
abbrev pub source_of : String → String → InboxKey → SourceKey
source_of tenant project (scope, (chat, (message, (kind, revision)))) =
    (tenant, (project, (scope, (chat, message))))

abbrev pub revision_of : InboxKey → ℕ
revision_of (scope, (chat, (message, (kind, revision)))) = revision

-- Every event of the inbox has its source row, and that is at least at the event's revision.
pub record IsCovered (tenant project : String) (db : Tables) : Type 0 where
  pub source :
      (k : InboxKey) (row : EventInbox)
      → Dict.get db.inbox k ≡ some row
      → (s : SourceMessage) × (Dict.get db.sources (source_of tenant project k) ≡ some s)
        × (revision_of k ≤ s.latest_revision)

next_source-latest :
    (event : SourceEvent) (tenant project : String) (o : Option SourceMessage)
    → event.revision ≤ (next_source event tenant project o).latest_revision
next_source-latest event tenant project none = omega arith
next_source-latest event tenant project (some s) = ground arith

grown :
    (o : Option SourceMessage) (old : SourceMessage) (n : ℕ) (new : Option SourceMessage)
    → o ≡ some old
    → n ≤ old.latest_revision
    → SourceGrows o new
    → (s : SourceMessage) × (new ≡ some s) × (n ≤ s.latest_revision)
grown none old n new e h g = absurd (none≢some e)
grown (some x) old n none e h g = absurd g
grown (some x) old n (some s) e h g =
    let same : x.latest_revision ≡ old.latest_revision =
      ap (λ (m : SourceMessage). m.latest_revision) (some_inj e) in
    (s, refl, omega (arith, same, h, g.0))

inbox_after :
    (event : SourceEvent) (tenant project : String) (seq : ℕ) (db : Tables)
    → is_some (Dict.get db.inbox (inbox_key event)) ≡ false
    → (ingest event tenant project seq db).1.inbox
      ≡ Dict.put db.inbox (inbox_key event) (inbox_row event seq)
unfolding ingest
inbox_after event tenant project seq db p = rw p

new_covered :
    (event : SourceEvent) (tenant project : String) (seq : ℕ) (db : Tables)
    → is_some (Dict.get db.inbox (inbox_key event)) ≡ false
    → (k : InboxKey) → inbox_key event ≡ k
    → (s : SourceMessage) × (Dict.get
          (ingest event tenant project seq db).1.sources
          (source_of tenant project k)
        ≡ some s)
      × (revision_of k ≤ s.latest_revision)
unfolding inbox_key source_key
new_covered event tenant project seq db p k same =
    let key = source_key event tenant project in
    let s = next_source event tenant project (Dict.get db.sources key) in
    subst
      (λ (x : InboxKey).
        (t : SourceMessage) × (Dict.get (ingest event tenant project seq db).1.sources
            (source_of tenant project x)
          ≡ some t)
        × (revision_of x ≤ t.latest_revision))
      same
      (
        s,
        ap (λ (d : Dict SourceKey SourceMessage). Dict.get d key)
              (sources_after event tenant project seq db p)
            ∙ own_source db.sources key s,
        next_source-latest event tenant project (Dict.get db.sources key),
      )

-- Ingesting for one tenant and project keeps the inbox covered: if every event of it has its
-- source row there, at a latest revision that is at least the event's, then it is so afterwards.
pub ingest-IsCovered :
    (event : SourceEvent) (tenant project : String) (seq : ℕ) (db : Tables)
    → IsCovered tenant project db
    → IsCovered tenant project (ingest event tenant project seq db).1
ingest-IsCovered event tenant project seq db c =
    elim (Bool-cases (is_some (Dict.get db.inbox (inbox_key event)))) [
      | inl p ↦ rw (refuses event tenant project seq db p) c
      | inr p ↦ record {
        source = λ k row h.
            elim (get-put_cases db.inbox (inbox_key event) k (inbox_row event seq) row
              (rw (inbox_after event tenant project seq db p) at h)) [
                | inl (same, e) ↦ new_covered event tenant project seq db p k same
                | inr (other, e) ↦
                    let (s, stored, le) = c.source k row e in
                    grown (Dict.get db.sources (source_of tenant project k)) s (revision_of k)
                      (Dict.get (ingest event tenant project seq db).1.sources
                        (source_of tenant project k))
                      stored le
                      (ingest-SourceGrows event tenant project seq db (source_of tenant project k))
              ];
      }
    ]
