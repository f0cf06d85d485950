-- ===== src/Ingest/Members.antt =====
-- No member of an album is dropped (runtime/ingest/album.py).
use tdaudiibncba.Common.{
  ℕ, ℤ, String, ◌≡◌, refl, ◌∙◌, ap, subst, inl, inr, ◌⊎◌, Bool, true, false, ◌||◌, Option, none,
  some, List, [], ◌∷◌, ◌++◌, ◌==◌, arith, contains, int_eq, beq_refl, Bool-cases,
}
use tdaudiibncba.Common.Dict
use tdaudiibncba.Common.Dict.{get-put}
use tdaudiibncba.Ingest.Album.{
  Key, MemberDisposition, AlbumGroup, AlbumAggregator, key_eq, le_int, insert_sorted, sort, elapsed,
  closing, maybe_close, group_for, with_member, collect, add,
}

or_swap : (p q r : Bool) → (p || (q || r)) ≡ (q || (p || r))
or_swap true true r = refl
or_swap true false r = refl
or_swap false q r = refl

contains-insert_sorted :
    (i m : ℤ) (xs : List ℤ) → contains (insert_sorted i xs) m ≡ ((m == i) || contains xs m)
unfolding contains insert_sorted
contains-insert_sorted i m [] = refl
contains-insert_sorted i m (x ∷ xs) = elim (Bool-cases (le_int i x)) [
  | inl p ↦ rw p
  | inr p ↦ rw (p, contains-insert_sorted i m xs) (or_swap (m == x) (m == i) (contains xs m))
]

contains-sort : (m : ℤ) (xs : List ℤ) → contains (sort xs) m ≡ contains xs m
unfolding contains sort
contains-sort m [] = refl
contains-sort m (x ∷ xs) =
    contains-insert_sorted x m (sort xs) ∙ ap (λ (b : Bool). (m == x) || b) (contains-sort m xs)

-- Sorted by `<=`.
abbrev pub IsSorted : List ℤ → Type 0
IsSorted [] = Unit
IsSorted (x ∷ []) = Unit
IsSorted (x ∷ y ∷ ys) = (le_int x y ≡ true) × IsSorted (y ∷ ys)

le_int_total : (x y : ℤ) → le_int x y ≡ false → le_int y x ≡ true
le_int_total x y h = ground arith

insert_sorted-IsSorted : (i : ℤ) (xs : List ℤ) → IsSorted xs → IsSorted (insert_sorted i xs)
unfolding insert_sorted
insert_sorted-IsSorted i [] s = tt
insert_sorted-IsSorted i (x ∷ []) s = elim (Bool-cases (le_int i x)) [
  | inl p ↦ rw p (p, tt)
  | inr p ↦ rw p (le_int_total i x p, tt)
]
insert_sorted-IsSorted i (x ∷ y ∷ ys) s = elim (Bool-cases (le_int i x)) [
  | inl p ↦ rw p (p, s)
  | inr p ↦ elim (Bool-cases (le_int i y)) [
    | inl q ↦ rw (p, q) (le_int_total i x p, (q, s.1))
    | inr q ↦ rw (p, q) (s.0, (rw q at (insert_sorted-IsSorted i (y ∷ ys) s.1)))
  ]
]

sort-IsSorted : (xs : List ℤ) → IsSorted (sort xs)
unfolding sort
sort-IsSorted [] = tt
sort-IsSorted (x ∷ xs) = insert_sorted-IsSorted x (sort xs) (sort-IsSorted xs)

-- A group has the member that was added and all that it had.
pub record Gathers (before : AlbumGroup) (m : ℤ) (g : AlbumGroup) : Type 0 where
  pub added : contains g.members m ≡ true
  pub kept : (i : ℤ) → contains before.members i ≡ true → contains g.members i ≡ true

-- Where the member went: into a group that is handed out, sorted and closed, or into the group that
-- stays open under the key.
pub record Collected (before : AlbumGroup) (k : Key) (m : ℤ) (out : Option AlbumGroup)
    (agg : AlbumAggregator) : Type 0 where
  pub handed_out :
      (g : AlbumGroup) → out ≡ some g → Gathers before m g × IsSorted g.members × (g.closed ≡ true)
  pub stays_open :
      out ≡ none → (g : AlbumGroup) × (Dict.get agg.opened k ≡ some g) × Gathers before m g

snoc_member : (xs : List ℤ) (m : ℤ) → contains (xs ++ m ∷ []) m ≡ true
unfolding contains
snoc_member [] m = rw (beq_refl m)
snoc_member (x ∷ xs) m = ground (arith, snoc_member xs m)

snoc_kept : (xs : List ℤ) (m i : ℤ) → contains xs i ≡ true → contains (xs ++ m ∷ []) i ≡ true
unfolding contains
snoc_kept [] m i h = cc
snoc_kept (x ∷ xs) m i h = ground (arith, snoc_kept xs m i)

Gathers-with_member : (g : AlbumGroup) (m : ℤ) → Gathers g m (with_member g m)
Gathers-with_member g m = elim (Bool-cases (contains g.members m)) [
  | inl p ↦ rw p (record { added = p; kept = λ i h. h })
  | inr p ↦ rw p (record { added = snoc_member g.members m; kept = snoc_kept g.members m })
]

Gathers-closing :
    (before g : AlbumGroup) (m : ℤ) → Gathers before m g → Gathers before m (closing g)
Gathers-closing before g m h = record {
  added = contains-sort m g.members ∙ h.added;
  kept = λ i c. contains-sort i g.members ∙ h.kept i c;
}

Collected-maybe_close :
    (before g : AlbumGroup) (k : Key) (m : ℤ) (agg : AlbumAggregator) (now : ℕ)
    → Gathers before m g
    → Dict.get agg.opened k ≡ some g
    → Collected before k m (maybe_close agg g now).0 (maybe_close agg g now).1
unfolding maybe_close
Collected-maybe_close before g k m agg now h filed = elim (Bool-cases (elapsed agg g now)) [
  | inl p ↦ rw p (record {
    handed_out = λ g' e.
        subst (λ x. Gathers before m x × IsSorted x.members × (x.closed ≡ true)) (cc)
          (Gathers-closing before g m h, sort-IsSorted g.members, refl);
    stays_open = λ e. cc;
  })
  | inr p ↦ rw p (record { handed_out = λ g' e. cc; stays_open = λ e. (g, filed, h) })
]

abbrev pub Accounted :
    AlbumAggregator
    → Key
    → ℤ
    → ℕ
    → (Option AlbumGroup × MemberDisposition) × AlbumAggregator
    → Type 0
Accounted agg k m seen r =
    (r.0.1 ≡ MemberDisposition.in_group) × Collected (group_for agg k seen) k m r.0.0 r.1

Accounted-collect :
    (agg : AlbumAggregator) (k : Key) (m : ℤ) (seen now : ℕ)
    → Accounted agg k m seen (collect agg k m seen now)
unfolding collect
Accounted-collect agg k m seen now = (
  refl,
  Collected-maybe_close (group_for agg k seen) (with_member (group_for agg k seen) m) k m
      (record agg { opened = Dict.put agg.opened k (with_member (group_for agg k seen) m) }) now
      (Gathers-with_member (group_for agg k seen) m)
      (rw (get-put agg.opened k k (with_member (group_for agg k seen) m), beq_refl k)),
)

-- A member of a closed album is reported as late and changes nothing. Any other is in the group that
-- `add` hands out, sorted and marked closed, or in the group that stays open under its key, together
-- with every member that the group had before.
pub add-Accounted :
    (agg : AlbumAggregator) (account : String) (chat grouped m : ℤ) (seen now : ℕ)
    → let k : Key = (account, chat, grouped) in
      let r = add agg account chat grouped m seen now in
      ((contains agg.closed_keys k ≡ true) × (r ≡ ((none, MemberDisposition.late), agg)))
      ⊎ ((contains agg.closed_keys k ≡ false) × Accounted agg k m seen r)
unfolding add
add-Accounted agg account chat grouped m seen now =
    elim (Bool-cases (contains agg.closed_keys (account, chat, grouped))) [
      | inl p ↦ inl (p, rw p)
      | inr p ↦ inr (p, rw p (Accounted-collect agg (account, chat, grouped) m seen now))
    ]
