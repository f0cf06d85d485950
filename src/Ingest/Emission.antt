-- ===== src/Ingest/Emission.antt =====
-- Each album is handed out at most once (runtime/ingest/album.py).
use tdaudiibncba.Common.{
  ℕ, ℤ, String, ◌≡◌, refl, sym, ◌∙◌, subst, inl, inr, true, false, Option, none, some, List, [],
  ◌∷◌, ◌++◌, map, ◌==◌, arith, contains, All, All-append, beq_refl, eq_of_beq, Bool-cases,
}
use mathlib.Core.Bool.{false≢true}
use tdaudiibncba.Common.Dict
use tdaudiibncba.Common.Dict.{Dict, Distinct, Entries, Entries-refl, Entries-remove}
use tdaudiibncba.Ingest.Album.{
  Key, AlbumGroup, AlbumAggregator, key_eq, elapsed, maybe_close, group_for, with_member, collect,
  add, Clock, later, emitted, flush_loop, flush,
}
use tdaudiibncba.Ingest.Windows.{IsValid, closes-IsValid, filing, filing-IsValid, filing_key}

-- No key stands twice in the list.
abbrev pub NoRepeat : List Key → Type 0
NoRepeat [] = Unit
NoRepeat (k ∷ ks) = (contains ks k ≡ false) × NoRepeat ks

abbrev pub keys : List AlbumGroup → List Key
keys = map (λ (g : AlbumGroup). g.key)

-- From `a` to `b` the groups of the keys are handed out: each key was not closed before, is closed
-- after, and stands once; what was closed stays closed, and the state stays valid.
pub record Emits (a : AlbumAggregator) (ks : List Key) (b : AlbumAggregator) : Type 0 where
  pub fresh : All (λ k. contains a.closed_keys k ≡ false) ks
  pub recorded : All (λ k. contains b.closed_keys k ≡ true) ks
  pub grows : (k : Key) → contains a.closed_keys k ≡ true → contains b.closed_keys k ≡ true
  pub once : NoRepeat ks
  pub valid : IsValid b

Emits-nil : (a : AlbumAggregator) → IsValid a → Emits a [] a
Emits-nil a v = record { fresh = tt; recorded = tt; grows = λ k h. h; once = tt; valid = v }

-- The lemmas below read the closed keys before and after as two lists, the second the larger.
abbrev Within : List Key → List Key → Type 0
Within xs ys = (k : Key) → contains xs k ≡ true → contains ys k ≡ true

grown :
    (xs ys ks : List Key)
    → Within xs ys
    → All (λ k. contains xs k ≡ true) ks
    → All (λ k. contains ys k ≡ true) ks
grown xs ys [] g h = tt
grown xs ys (k ∷ ks) g h = (g k h.0, grown xs ys ks g h.1)

shrunk :
    (xs ys ks : List Key)
    → Within xs ys
    → All (λ k. contains ys k ≡ false) ks
    → All (λ k. contains xs k ≡ false) ks
shrunk xs ys [] g h = tt
shrunk xs ys (k ∷ ks) g h = (
  elim (Bool-cases (contains xs k)) [ inl p ↦ absurd (false≢true (sym h.0 ∙ g k p)) | inr p ↦ p ],
  shrunk xs ys ks g h.1,
)

-- A key that is closed stands in no list of keys that are not.
not_among :
    (xs : List Key) (k : Key) (ls : List Key)
    → contains xs k ≡ true
    → All (λ l. contains xs l ≡ false) ls
    → contains ls k ≡ false
unfolding contains
not_among xs k [] c h = refl
not_among xs k (l ∷ ls) c h = elim (Bool-cases (k == l)) [
  | inl p ↦ absurd (false≢true (sym h.0 ∙ subst (λ x. contains xs x ≡ true) (eq_of_beq k l p) c))
  | inr p ↦ rw p (not_among xs k ls c h.1)
]

contains_append :
    (xs ys : List Key) (k : Key)
    → contains xs k ≡ false
    → contains ys k ≡ false
    → contains (xs ++ ys) k ≡ false
unfolding contains
contains_append [] ys k h h' = h'
contains_append (x ∷ xs) ys k h h' = ground (arith, contains_append xs ys k)

NoRepeat-append :
    (xs ks ls : List Key)
    → NoRepeat ks
    → NoRepeat ls
    → All (λ k. contains xs k ≡ true) ks
    → All (λ k. contains xs k ≡ false) ls
    → NoRepeat (ks ++ ls)
NoRepeat-append xs [] ls h h' r f = h'
NoRepeat-append xs (k ∷ ks) ls h h' r f =
    (contains_append ks ls k h.0 (not_among xs k ls r.0 f), NoRepeat-append xs ks ls h.1 h' r.1 f)

Emits-append :
    {a b c : AlbumAggregator} {ks ls : List Key}
    → Emits a ks b
    → Emits b ls c
    → Emits a (ks ++ ls) c
Emits-append {a} {b} {c} {ks} {ls} e f = record {
  fresh = All-append _ ks ls e.fresh (shrunk a.closed_keys b.closed_keys ls e.grows f.fresh);
  recorded =
      All-append _ ks ls (grown b.closed_keys c.closed_keys ks f.grows e.recorded) f.recorded;
  grows = λ k h. f.grows k (e.grows k h);
  once = NoRepeat-append b.closed_keys ks ls e.once f.once e.recorded f.fresh;
  valid = f.valid;
}

abbrev keys_of : Option AlbumGroup → List Key
keys_of none = []
keys_of (some g) = g.key ∷ []

Emits-maybe_close :
    (agg : AlbumAggregator) (g : AlbumGroup) (now : ℕ)
    → IsValid agg
    → contains agg.closed_keys g.key ≡ false
    → Emits agg (keys_of (maybe_close agg g now).0) (maybe_close agg g now).1
unfolding maybe_close contains
Emits-maybe_close agg g now v f = elim (Bool-cases (elapsed agg g now)) [
  | inl p ↦ rw p (record {
    fresh = (f, tt);
    recorded = (rw (beq_refl g.key), tt);
    grows = λ k h. ground arith;
    once = (refl, tt);
    valid = closes-IsValid agg g v;
  })
  | inr p ↦ rw p (Emits-nil agg v)
]

keys-emitted :
    (o : Option AlbumGroup) (gs : List AlbumGroup) → keys (emitted o gs) ≡ keys_of o ++ keys gs
keys-emitted none gs = refl
keys-emitted (some g) gs = refl

Entries-maybe_close :
    (rest : Dict Key AlbumGroup) (agg : AlbumAggregator) (g : AlbumGroup) (now : ℕ)
    → Dict.get rest g.key ≡ none
    → Entries rest agg.opened
    → Entries rest (maybe_close agg g now).1.opened
unfolding maybe_close
Entries-maybe_close rest agg g now h es = elim (Bool-cases (elapsed agg g now)) [
  | inl p ↦ rw p (Entries-remove rest agg.opened g.key h es)
  | inr p ↦ rw p es
]

Emits-flush_loop :
    (entries : Dict Key AlbumGroup) (agg : AlbumAggregator) (clock : Clock)
    → Distinct entries
    → Entries entries agg.opened
    → IsValid agg
    → Emits agg (keys (flush_loop entries agg clock).0) (flush_loop entries agg clock).1
unfolding flush_loop
Emits-flush_loop [] agg clock d es v = Emits-nil agg v
Emits-flush_loop ((k, g) ∷ entries) agg clock d es v =
    let o = v.filed k g es.0 in
    let step =
      Emits-maybe_close agg g (clock 0) v
        (subst (λ x. contains agg.closed_keys x ≡ false) (sym o.own_key) o.unclosed) in
    let es' =
      Entries-maybe_close entries agg g (clock 0)
        (subst (λ x. Dict.get entries x ≡ none) (sym o.own_key) d.0) es.1 in
    let agg' = (maybe_close agg g (clock 0)).1 in
    let ih = Emits-flush_loop entries agg' (later clock) d.1 es' step.valid in
    subst (λ (ks : List Key). Emits agg ks (flush_loop entries agg' (later clock)).1)
      (sym (keys-emitted (maybe_close agg g (clock 0)).0 (flush_loop entries agg' (later clock)).0))
      (Emits-append step ih)

pub Emits-flush :
    (agg : AlbumAggregator) (clock : Clock)
    → IsValid agg
    → Emits agg (keys (flush agg clock).0) (flush agg clock).1
unfolding flush
Emits-flush agg clock v =
    Emits-flush_loop agg.opened agg clock v.distinct (Entries-refl agg.opened v.distinct) v

Emits-collect :
    (agg : AlbumAggregator) (k : Key) (m : ℤ) (seen now : ℕ)
    → IsValid agg
    → contains agg.closed_keys k ≡ false
    → Emits agg (keys_of (collect agg k m seen now).0.0) (collect agg k m seen now).1
unfolding collect
Emits-collect agg k m seen now v f =
    let e =
      Emits-maybe_close (filing agg k m seen) (with_member (group_for agg k seen) m) now
        (filing-IsValid agg k m seen v f)
        (subst (λ x. contains agg.closed_keys x ≡ false) (sym (filing_key agg k m seen v)) f) in
    record {
      fresh = e.fresh;
      recorded = e.recorded;
      grows = e.grows;
      once = e.once;
      valid = e.valid;
    }

pub Emits-add :
    (agg : AlbumAggregator) (account : String) (chat grouped m : ℤ) (seen now : ℕ)
    → IsValid agg
    → Emits agg
        (keys_of (add agg account chat grouped m seen now).0.0)
        (add agg account chat grouped m seen now).1
unfolding add
Emits-add agg account chat grouped m seen now v =
    elim (Bool-cases (contains agg.closed_keys (account, chat, grouped))) [
      | inl p ↦ rw p (Emits-nil agg v)
      | inr p ↦ rw p (Emits-collect agg (account, chat, grouped) m seen now v p)
    ]

-- What a worker does with an aggregator: calls of `add` and `flush` in any order.
pub data Op : Type 0 where
  adding : String → ℤ → ℤ → ℤ → ℕ → ℕ → Op
  flushing : Clock → Op

abbrev pub step : AlbumAggregator → Op → List Key × AlbumAggregator
step agg (adding account chat grouped m seen now) =
    let r = add agg account chat grouped m seen now in (keys_of r.0.0, r.1)
step agg (flushing clock) = let r = flush agg clock in (keys r.0, r.1)

-- The keys of the groups that a run hands out, in order.
abbrev pub run : AlbumAggregator → List Op → List Key × AlbumAggregator
run agg [] = ([], agg)
run agg (op ∷ ops) =
    let (ks, agg') = step agg op in let (ls, agg'') = run agg' ops in (ks ++ ls, agg'')

Emits-step :
    (agg : AlbumAggregator) (op : Op) → IsValid agg → Emits agg (step agg op).0 (step agg op).1
Emits-step agg (adding account chat grouped m seen now) v =
    Emits-add agg account chat grouped m seen now v
Emits-step agg (flushing clock) v = Emits-flush agg clock v

-- Over any calls of `add` and `flush` from a valid state, no album is handed out twice, none whose
-- key was closed at the start is handed out again, and the state stays valid.
pub run-Emits :
    (agg : AlbumAggregator) (ops : List Op)
    → IsValid agg
    → Emits agg (run agg ops).0 (run agg ops).1
run-Emits agg [] v = Emits-nil agg v
run-Emits agg (op ∷ ops) v =
    let e = Emits-step agg op v in Emits-append e (run-Emits (step agg op).1 ops e.valid)

abbrev pub fresh_aggregator : ℕ → AlbumAggregator
fresh_aggregator window = record { window = window; opened = []; closed_keys = [] }

pub fresh_aggregator-IsValid : (window : ℕ) → IsValid (fresh_aggregator window)
unfolding Dict.get
fresh_aggregator-IsValid window = record { distinct = tt; filed = λ k g h. cc }
