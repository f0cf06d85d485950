-- ===== src/Ingest/Album.antt =====
-- runtime/ingest/album.py: albums are collected for a window of time. The clock is a parameter of the
-- source: here a stream of readings, one for each call of `self._now()`.
use tdaudiibncba.Common.{
  ℕ, ℤ, pos, negsuc, suc, ◌+◌, String, Bool, true, false, Option, none, some, List, [], ◌∷◌, ◌++◌,
  Eq, ◌==◌, ◌≡◌, ◌↔◌, ap, ◌&&◌, and_parts, eq_of_beq, beq_refl, leb, contains, string_eq, int_eq,
  if◌then◌else◌,
}
use tdaudiibncba.Common.Dict
use tdaudiibncba.Common.Dict.{Dict}

pub data MemberDisposition : Type 0 where
  in_group late : MemberDisposition

-- (account_id, chat_id, grouped_id)
abbrev pub Key : Type 0
Key = String × ℤ × ℤ

pub record AlbumGroup : Type 0 where
  pub key : Key
  pub first_seen : ℕ
  pub members : List ℤ
  pub closed : Bool

pub record AlbumAggregator : Type 0 where
  pub window : ℕ
  pub opened : Dict Key AlbumGroup
  pub closed_keys : List Key

abbrev pub key_beq : Key → Key → Bool
key_beq (a, b, c) (a', b', c') = a == a' && (b == b' && c == c')

key_parts : {k l : Key} → k ≡ l → (k.0 ≡ l.0) × (k.1 ≡ l.1) × (k.2 ≡ l.2)
key_parts p = (ap (λ k. k.0) p, ap (λ k. k.1) p, ap (λ k. k.2) p)

pub key_beq_iff : (k l : Key) → (key_beq k l ≡ true) ↔ (k ≡ l)
key_beq_iff (a, b, c) (a', b', c') = (
  λ h.
      let (p, q) = and_parts (a == a') (b == b' && c == c') h in
      let (r, s) = and_parts (b == b') (c == c') q in
      cc (eq_of_beq a a' p, eq_of_beq b b' r, eq_of_beq c c' s),
  λ p. let (q, r, s) = key_parts p in rw (q, r, s, beq_refl a', beq_refl b', beq_refl c'),
)

instance abbrev pub key_eq : Eq Key
key_eq = record { beq = key_beq; beq_iff = key_beq_iff }

abbrev pub le_int : ℤ → ℤ → Bool
le_int (pos a) (pos b) = leb a b
le_int (negsuc a) (negsuc b) = leb b a
le_int (negsuc _) (pos _) = true
le_int (pos _) (negsuc _) = false

-- list.sort() on ints, as insertion into a sorted list.
unfoldable pub insert_sorted : ℤ → List ℤ → List ℤ
insert_sorted i [] = i ∷ []
insert_sorted i (j ∷ js) =
    let rest = insert_sorted i js in if le_int i j then i ∷ j ∷ js else j ∷ rest

unfoldable pub sort : List ℤ → List ℤ
unfolding insert_sorted
sort [] = []
sort (i ∷ is) = insert_sorted i (sort is)

abbrev pub elapsed : AlbumAggregator → AlbumGroup → ℕ → Bool
elapsed agg group now = leb (group.first_seen + agg.window) now

-- The group as it is handed out.
abbrev pub closing : AlbumGroup → AlbumGroup
closing group = record group { members = sort group.members; closed = true }

unfoldable pub maybe_close : AlbumAggregator → AlbumGroup → ℕ → Option AlbumGroup × AlbumAggregator
maybe_close agg group now =
    if elapsed agg group now
    then (
      some (closing group),
      record agg {
        opened = Dict.remove agg.opened group.key;
        closed_keys = group.key ∷ agg.closed_keys;
      },
    )
    else (none, agg)

-- The group of the key, a new one first seen at `seen` if none is open.
abbrev pub group_for : AlbumAggregator → Key → ℕ → AlbumGroup
group_for agg key seen = elim (Dict.get agg.opened key) [
  | none ↦ record { key = key; first_seen = seen; members = []; closed = false }
  | some group ↦ group
]

abbrev pub with_member : AlbumGroup → ℤ → AlbumGroup
with_member group message_id =
    if contains group.members message_id
    then group
    else record group { members = group.members ++ message_id ∷ [] }

abbrev pub AddResult : Type 0
AddResult = (Option AlbumGroup × MemberDisposition) × AlbumAggregator

-- `add` to a key that is not closed.
unfoldable pub collect : AlbumAggregator → Key → ℤ → ℕ → ℕ → AddResult
unfolding maybe_close
collect agg key message_id seen now =
    let group = with_member (group_for agg key seen) message_id in
    let (closed, agg') =
      maybe_close (record agg { opened = Dict.put agg.opened key group }) group now in
    ((closed, MemberDisposition.in_group), agg')

-- `seen` is the reading for a new group, `now` that of `_maybe_close`.
unfoldable pub add : AlbumAggregator → String → ℤ → ℤ → ℤ → ℕ → ℕ → AddResult
unfolding collect
add agg account_id chat_id grouped_id message_id seen now =
    let key : Key = (account_id, chat_id, grouped_id) in
    let fresh = collect agg key message_id seen now in
    if contains agg.closed_keys key then ((none, MemberDisposition.late), agg) else fresh

abbrev pub Clock : Type 0
Clock = ℕ → ℕ

abbrev pub later : Clock → Clock
later clock n = clock (suc n)

abbrev pub emitted : Option AlbumGroup → List AlbumGroup → List AlbumGroup
emitted none groups = groups
emitted (some group) groups = group ∷ groups

-- The loop of `flush` over the entries that were open when it began.
unfoldable pub flush_loop :
    Dict Key AlbumGroup → AlbumAggregator → Clock → List AlbumGroup × AlbumAggregator
flush_loop [] agg clock = ([], agg)
flush_loop ((key, group) ∷ entries) agg clock =
    let (done, agg') = maybe_close agg group (clock 0) in
    let (groups, agg'') = flush_loop entries agg' (later clock) in (emitted done groups, agg'')

unfoldable pub flush : AlbumAggregator → Clock → List AlbumGroup × AlbumAggregator
unfolding flush_loop
flush agg clock = flush_loop agg.opened agg clock
