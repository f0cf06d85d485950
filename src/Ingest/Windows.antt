-- ===== src/Ingest/Windows.antt =====
-- The state of the album aggregator between calls (runtime/ingest/album.py).
use tdaudiibncba.Common.{
  ℕ, ℤ, ◌≡◌, refl, sym, ◌∙◌, subst, inl, inr, Bool, true, false, Option, none, some, ◌∷◌, ◌==◌,
  contains, int_eq, eq_of_beq, Bool-cases, Option-cases, if◌then◌else◌,
}
use tdaudiibncba.Common.Dict
use tdaudiibncba.Common.Dict.{
  Dict, Distinct, Entries, get-put, get-remove, Distinct-put, Distinct-remove, beq_sym_false,
}
use tdaudiibncba.Ingest.Album.{Key, AlbumGroup, AlbumAggregator, key_eq, group_for, with_member}

pub record IsOpen (agg : AlbumAggregator) (k : Key) (g : AlbumGroup) : Type 0 where
  pub own_key : g.key ≡ k
  pub still_open : g.closed ≡ false
  pub unclosed : contains agg.closed_keys k ≡ false

-- The open groups are filed under their own keys, each once, and none of their keys is closed.
pub record IsValid (agg : AlbumAggregator) : Type 0 where
  pub distinct : Distinct agg.opened
  pub filed : (k : Key) (g : AlbumGroup) → Dict.get agg.opened k ≡ some g → IsOpen agg k g

abbrev pub closes : AlbumAggregator → AlbumGroup → AlbumAggregator
closes agg group = record agg {
  opened = Dict.remove agg.opened group.key;
  closed_keys = group.key ∷ agg.closed_keys;
}

if_some :
    {A : Type 0} (b : Bool) (o : Option A) (a : A)
    → (if b then none else o) ≡ some a
    → (b ≡ false) × (o ≡ some a)
if_some true o a h = cc
if_some false o a h = (refl, h)

pub closes-IsValid :
    (agg : AlbumAggregator) (group : AlbumGroup) → IsValid agg → IsValid (closes agg group)
unfolding contains
closes-IsValid agg group v = record {
  distinct = Distinct-remove agg.opened group.key v.distinct;
  filed = λ k g h.
      let (apart, there) =
        if_some (group.key == k) (Dict.get agg.opened k) g
          (sym (get-remove agg.opened group.key k) ∙ h) in
      let o = v.filed k g there in
      record {
        own_key = o.own_key;
        still_open = o.still_open;
        unclosed = rw (beq_sym_false group.key k apart) o.unclosed;
      };
}

if_other :
    {A : Type 0} (b : Bool) (o : Option A) (x a : A)
    → (if b then some x else o) ≡ some a
    → (P : A → Type 0) → (b ≡ true → P x)
    → (o ≡ some a → P a)
    → P a
if_other true o x a h P px pa = subst P (cc) (px refl)
if_other false o x a h P px pa = pa h

pub put-IsValid :
    (agg : AlbumAggregator) (k : Key) (group : AlbumGroup)
    → IsValid agg
    → group.key ≡ k
    → group.closed ≡ false
    → contains agg.closed_keys k ≡ false
    → IsValid (record agg { opened = Dict.put agg.opened k group })
put-IsValid agg k group v own unclosed fresh = record {
  distinct = Distinct-put agg.opened k group v.distinct;
  filed = λ j g h.
      if_other (k == j) (Dict.get agg.opened j) group g (sym (get-put agg.opened k j group) ∙ h)
        (λ x. IsOpen (record agg { opened = Dict.put agg.opened k group }) j x)
        (λ e.
          let same = eq_of_beq k j e in
          record {
            own_key = own ∙ same;
            still_open = unclosed;
            unclosed = subst (λ x. contains agg.closed_keys x ≡ false) same fresh;
          })
        (λ there.
          let o = v.filed j g there in
          record { own_key = o.own_key; still_open = o.still_open; unclosed = o.unclosed });
}

with_member_key :
    (g : AlbumGroup) (m : ℤ)
    → ((with_member g m).key ≡ g.key) × ((with_member g m).closed ≡ g.closed)
with_member_key g m = elim (Bool-cases (contains g.members m)) [
  | inl p ↦ rw p (refl, refl)
  | inr p ↦ rw p (refl, refl)
]

group_for_facts :
    (agg : AlbumAggregator) (k : Key) (seen : ℕ)
    → IsValid agg
    → ((group_for agg k seen).key ≡ k) × ((group_for agg k seen).closed ≡ false)
group_for_facts agg k seen v = elim (Option-cases (Dict.get agg.opened k)) [
  | inl e ↦ rw (e, group_for) (refl, refl)
  | inr (g, e) ↦ rw (e, group_for) ((v.filed k g e).own_key, (v.filed k g e).still_open)
]

-- The aggregator with the group of `add`, before `_maybe_close`.
abbrev pub filing : AlbumAggregator → Key → ℤ → ℕ → AlbumAggregator
filing agg k m seen = record agg {
  opened = Dict.put agg.opened k (with_member (group_for agg k seen) m);
}

pub filing-IsValid :
    (agg : AlbumAggregator) (k : Key) (m : ℤ) (seen : ℕ)
    → IsValid agg
    → contains agg.closed_keys k ≡ false
    → IsValid (filing agg k m seen)
filing-IsValid agg k m seen v fresh =
    let (own, unclosed) = group_for_facts agg k seen v in
    let (own', unclosed') = with_member_key (group_for agg k seen) m in
    put-IsValid agg k (with_member (group_for agg k seen) m) v (own' ∙ own) (unclosed' ∙ unclosed)
      fresh

pub filing_key :
    (agg : AlbumAggregator) (k : Key) (m : ℤ) (seen : ℕ)
    → IsValid agg
    → (with_member (group_for agg k seen) m).key ≡ k
filing_key agg k m seen v =
    (with_member_key (group_for agg k seen) m).0 ∙ (group_for_facts agg k seen v).0
