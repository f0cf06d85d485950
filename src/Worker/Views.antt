-- ===== src/Worker/Views.antt =====
-- What the planner's view of the message map finds (runtime/worker/runner.py, _DictMappingView).
use tdaudiibncba.Common.{
  some_inj, none≢some, ℤ, String, ◌≡◌, refl, sym, ap, ◌∙◌, ◌⊎◌, inl, inr, Bool, true, false, ◌&&◌,
  Option, none, some, List, [], ◌∷◌, ◌==◌, Memᴰ, contains, arith, mem-append_cases, if◌then◌else◌,
  string_eq, int_eq, nat_eq, list_eq, pair_eq,
}
use tdaudiibncba.Common.Decimal.{Text}
use tdaudiibncba.Common.Dict
use tdaudiibncba.Common.Dict.{Dict, get-put_cases}
use tdaudiibncba.Storage.Maps.{MessageMap, MapKey, Maps, is_live, lookup_many}
use tdaudiibncba.Worker.Draining.{
  ViewKey, view_key, view_rows, target_of, dict_mapping_view, ScopeKey, prefetch,
}

-- A row that the view has is one of the rows, or was there before.
view_rows-mem :
    (rows : List MessageMap) (view : Dict ViewKey MessageMap) (k : ViewKey) (row : MessageMap)
    → Dict.get (view_rows rows view) k ≡ some row
    → (Memᴰ row rows × (view_key row ≡ k)) ⊎ (Dict.get view k ≡ some row)
unfolding view_rows
view_rows-mem [] view k row h = inr h
view_rows-mem (first ∷ rows) view k row h =
    elim (view_rows-mem rows (Dict.put view (view_key first) first) k row h) [
      | inl (m, e) ↦ inl (Memᴰ.tail m, e)
      | inr found ↦ elim (get-put_cases view (view_key first) k first row found) [
        | inl (p, q) ↦ inl (Memᴰ.head (sym q), ap view_key (sym q) ∙ p)
        | inr (p, q) ↦ inr q
      ]
    ]

last_live : (a b c live : Bool) → (a && b && c && live) ≡ true → live ≡ true
last_live a b c live h = ground arith

-- A member of a list to which a row was added if a test passed.
mem_if {ℓ} :
    {A : Type ℓ} {x : A} (b : Bool) (y : A) (ys : List A)
    → Memᴰ x (if b then y ∷ ys else ys)
    → ((b ≡ true) × (x ≡ y)) ⊎ Memᴰ x ys
mem_if true y ys (Memᴰ.head p) = inl (refl, p)
mem_if true y ys (Memᴰ.tail m) = inr m
mem_if false y ys m = inr m

-- The row is live and stands in the table.
abbrev pub IsStored : Maps → MessageMap → Type 0
IsStored maps row = (is_live row ≡ true) × ((k : MapKey) × Memᴰ (k, row) maps)

later-IsStored :
    (maps : Maps) (k : MapKey) (first row : MessageMap)
    → IsStored maps row
    → IsStored ((k, first) ∷ maps) row
later-IsStored maps k first row (live, (j, m)) = (live, (j, Memᴰ.tail m))

first-IsStored :
    (maps : Maps) (k : MapKey) (first row : MessageMap) (a b c : Bool)
    → (a && b && c && is_live first) ≡ true
    → row ≡ first
    → IsStored ((k, first) ∷ maps) row
first-IsStored maps k first row a b c h q = (
  ap is_live q ∙ last_live a b c (is_live first) h,
  (k, Memᴰ.head (ap (λ (y : MessageMap). (k, y)) q)),
)

-- What `lookup_many` returns is live and in the table.
lookup_many-IsStored :
    (scope : Text) (chat : ℤ) (ids : List ℤ) (maps : Maps) (row : MessageMap)
    → Memᴰ row (lookup_many scope chat ids maps)
    → IsStored maps row
unfolding lookup_many
lookup_many-IsStored scope chat ids [] row m = elim m [ ]
lookup_many-IsStored scope chat ids ((k, first) ∷ maps) row m =
    elim (mem_if _ first (lookup_many scope chat ids maps) m) [
      | inl (p, q) ↦
          first-IsStored maps k first row (first.source_scope == scope)
            (first.source_chat_id == chat) (contains ids first.source_message_id) p q
      | inr r ↦ later-IsStored maps k first row (lookup_many-IsStored scope chat ids maps row r)
    ]

prefetch-IsStored :
    (by_scope : Dict ScopeKey (List ℤ)) (maps : Maps) (row : MessageMap)
    → Memᴰ row (prefetch by_scope maps)
    → IsStored maps row
unfolding prefetch
prefetch-IsStored [] maps row m = elim m [ ]
prefetch-IsStored (((scope, chat), ids) ∷ by_scope) maps row m =
    elim (mem-append_cases (lookup_many scope chat ids maps) (prefetch by_scope maps) m) [
      | inl l ↦ lookup_many-IsStored scope chat ids maps row l
      | inr r ↦ prefetch-IsStored by_scope maps row r
    ]

target_row :
    (o : Option MessageMap) (target : ℤ)
    → target_of o ≡ some target
    → (row : MessageMap) × (o ≡ some row) × (row.target_message_id ≡ target)
target_row none target h = absurd (none≢some h)
target_row (some row) target h = (row, refl, some_inj h)

-- A reply target that the view gives to the planner is the target of a row of the message map that is
-- not deleted, and that row has the route, scope, chat and message that were asked for.
pub dict_mapping_view-IsStored :
    (by_scope : Dict ScopeKey (List ℤ)) (maps : Maps) (route : String) (scope : Text)
    (chat message target : ℤ)
    → (dict_mapping_view (prefetch by_scope maps)).find_target_message_id route scope chat message
      ≡ some target
    → (row : MessageMap) × (row.target_message_id ≡ target)
      × (view_key row ≡ (route, (scope, (chat, message))))
      × IsStored maps row
unfolding dict_mapping_view Dict.get
dict_mapping_view-IsStored by_scope maps route scope chat message target h =
    let rows = prefetch by_scope maps in
    let key : ViewKey = (route, (scope, (chat, message))) in
    let (row, found, same) = target_row (Dict.get (view_rows rows []) key) target h in
    elim (view_rows-mem rows [] key row found) [
      | inl (m, e) ↦ (row, same, e, prefetch-IsStored by_scope maps row m)
      | inr e ↦ absurd (none≢some e)
    ]
