-- ===== src/Storage/Deletion.antt =====
-- A deleted mapping is never used again (runtime/storage/repos.py, MappingRepository).
use tdaudiibncba.Common.{
  ℕ, ℤ, String, ◌≡◌, ◌≢◌, sym, ap, ◌∙◌, ◌⊎◌, inl, inr, Bool, true, ◌&&◌, List, [], ◌∷◌, ◌==◌, Memᴰ,
  if◌then◌else◌, ltb, string_eq, nat_eq, int_eq, list_eq, pair_eq, arith, Bool-cases, ne_of_beq,
}
use tdaudiibncba.Common.Decimal.{Text}
use tdaudiibncba.Storage.Maps.{
  MessageMap, MapKey, Maps, is_live, insert_by_part, live_parts, is_row, tombstoned, tombstone_rows,
  mark_deleted,
}

mem_insert_by_part :
    (row x : MessageMap) (rows : List MessageMap)
    → Memᴰ x (insert_by_part row rows)
    → (x ≡ row) ⊎ Memᴰ x rows
unfolding insert_by_part
mem_insert_by_part row x [] (Memᴰ.head p) = inl p
mem_insert_by_part row x [] (Memᴰ.tail m) = elim m [ ]
mem_insert_by_part row x (other ∷ rows) m =
    elim (Bool-cases (ltb other.output_part_index row.output_part_index)) [
      | inr p ↦ elim (rw p at m) [ Memᴰ.head q ↦ inl q | Memᴰ.tail q ↦ inr q ]
      | inl p ↦ elim (rw p at m) [
        | Memᴰ.head q ↦ inr (Memᴰ.head q)
        | Memᴰ.tail q ↦ elim (mem_insert_by_part row x rows q) [
          | inl e ↦ inl e
          | inr e ↦ inr (Memᴰ.tail e)
        ]
      ]
    ]

last_live : (a b c d live : Bool) → (a && b && c && d && live) ≡ true → live ≡ true
last_live a b c d live h = ground arith

-- A part that is found is live.
found_live :
    (route : String) (scope : Text) (chat message : ℤ) (x : MessageMap) (maps : Maps)
    → Memᴰ x (live_parts route scope chat message maps)
    → (k : MapKey) × Memᴰ (k, x) maps × (is_live x ≡ true)
unfolding live_parts
found_live route scope chat message x [] m = elim m [ ]
found_live route scope chat message x ((k, row) ∷ maps) m =
    elim (Bool-cases (
      (row.route_id == route)
      && (row.source_scope == scope)
      && (row.source_chat_id == chat)
      && (row.source_message_id == message)
      && is_live row)) [
        | inr p ↦
            let (j, q, live) = found_live route scope chat message x maps (rw p at m) in
            (j, Memᴰ.tail q, live)
        | inl p ↦
            elim (mem_insert_by_part row x (live_parts route scope chat message maps) (rw p at m)) [
              | inl e ↦ (
                k,
                Memᴰ.head (ap (λ (y : MessageMap). (k, y)) e),
                rw e (
                    last_live (row.route_id == route) (row.source_scope == scope)
                      (row.source_chat_id == chat) (row.source_message_id == message) (is_live row)
                      p),
              )
              | inr q ↦
                  let (j, r, live) = found_live route scope chat message x maps q in
                  (j, Memᴰ.tail r, live)
            ]
      ]

live_head :
    (id : String) (now : ℕ) (row x : MessageMap)
    → x ≡ (if is_row id row then tombstoned now row else row)
    → is_live x ≡ true
    → x.id ≢ id
live_head id now row x p live same = elim (Bool-cases (is_row id row)) [
  | inl hit ↦ cc (sym live, ap is_live (rw hit at p))
  | inr miss ↦ ne_of_beq row.id id miss (sym (ap (λ (y : MessageMap). y.id) (rw miss at p)) ∙ same)
]

-- A live row of the tombstoned table has another id.
live_after :
    (id : String) (now : ℕ) (maps : Maps) (k : MapKey) (x : MessageMap)
    → Memᴰ (k, x) (tombstone_rows id now maps)
    → is_live x ≡ true
    → x.id ≢ id
unfolding tombstone_rows
live_after id now [] k x m live = elim m [ ]
live_after id now ((j, row) ∷ maps) k x (Memᴰ.tail m) live = live_after id now maps k x m live
live_after id now ((j, row) ∷ maps) k x (Memᴰ.head p) live =
    live_head id now row x (ap (λ (e : MapKey × MessageMap). e.1) p) live

-- Right after a mapping is marked as deleted, no lookup of target messages returns a row with its
-- id.
pub live_parts-mark_deleted :
    (id : String) (now : ℕ) (maps : Maps) (route : String) (scope : Text) (chat message : ℤ)
    (x : MessageMap)
    → Memᴰ x (live_parts route scope chat message (mark_deleted id now maps).1)
    → x.id ≢ id
unfolding mark_deleted
live_parts-mark_deleted id now maps route scope chat message x m =
    let (k, q, live) = found_live route scope chat message x (tombstone_rows id now maps) m in
    live_after id now maps k x q live
