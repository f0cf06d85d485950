-- ===== src/Common/Dict.antt =====
-- Python's dict: the entries in insertion order. A key that is there keeps its place when its value
-- is replaced, and a new one goes to the end.
use tdaudiibncba.Common.{
  some_inj, ◌≡◌, refl, sym, ◌∙◌, ◌⊎◌, inl, inr, Bool, true, false, Option, none, some, List, [],
  ◌∷◌, arith, Eq, ◌==◌, beq_refl, eq_of_beq, ne_of_beq, Bool-cases, if◌then◌else◌,
}

abbrev pub Dict {ℓ κ} : Type ℓ → Type κ → Type (ℓ ⊔ κ)
Dict K V = List (K × V)

module _ {ℓ} {A : Type ℓ} where
  if_twice : (b : Bool) (x y z : A) → (if b then x else z) ≡ (if b then x else if b then y else z)
  if_twice true x y z = refl
  if_twice false x y z = refl

  if_swap :
      (p q : Bool)
      → (p ≡ true → q ≡ false)
      → (x y z : A) → (if p then x else if q then y else z) ≡ (if q then y else if p then x else z)
  if_swap true q h x y z = rw (h refl)
  if_swap false q h x y z = refl

some≢none {ℓ} : {A : Type ℓ} {a : A} → some a ≡ none → ⊥
some≢none p = cc

module _ {ℓ} {K : Type ℓ} ⦃e : Eq K⦄ where
  separate : (i k j : K) → (i == k) ≡ false → (i == j) ≡ true → (k == j) ≡ false
  separate i k j h p = elim (Bool-cases (k == j)) [
    | inl q ↦ absurd (ne_of_beq i k h (eq_of_beq i j p ∙ sym (eq_of_beq k j q)))
    | inr q ↦ q
  ]

module _ {ℓ κ} {K : Type ℓ} {V : Type κ} ⦃e : Eq K⦄ where
  -- d.get(k)
  unfoldable pub get : Dict K V → K → Option V
  get [] k = none
  get ((j, v) ∷ d) k = let rest = get d k in if j == k then some v else rest

  -- d[k] = v
  unfoldable pub put : Dict K V → K → V → Dict K V
  put [] k v = (k, v) ∷ []
  put ((j, w) ∷ d) k v = let rest = put d k v in if j == k then (j, v) ∷ d else (j, w) ∷ rest

  -- del d[k], d.pop(k, None)
  unfoldable pub remove : Dict K V → K → Dict K V
  remove [] k = []
  remove ((j, w) ∷ d) k = let rest = remove d k in if j == k then rest else (j, w) ∷ rest

  pub get-put :
      (d : Dict K V) (k j : K) (v : V) → get (put d k v) j ≡ (if k == j then some v else get d j)
  unfolding get put
  get-put [] k j v = refl
  get-put ((i, w) ∷ d) k j v = elim (Bool-cases (i == k)) [
    | inl same ↦ rw (same, eq_of_beq i k same) (if_twice (k == j) (some v) (some w) (get d j))
    | inr other ↦
        rw (other, get-put d k j v)
          (if_swap (i == j) (k == j) (separate i k j other) (some w) (some v) (get d j))
  ]

  pub get-remove :
      (d : Dict K V) (k j : K) → get (remove d k) j ≡ (if k == j then none else get d j)
  unfolding get remove
  get-remove [] k j = ground arith
  get-remove ((i, w) ∷ d) k j = elim (Bool-cases (i == k)) [
    | inl same ↦
        rw (same, get-remove d k j, eq_of_beq i k same) (if_twice (k == j) none (some w) (get d j))
    | inr other ↦
        rw (other, get-remove d k j)
          (if_swap (i == j) (k == j) (separate i k j other) (some w) none (get d j))
  ]

module _ {ℓ} {K : Type ℓ} ⦃e : Eq K⦄ where
  pub beq_sym_false : (a b : K) → (a == b) ≡ false → (b == a) ≡ false
  beq_sym_false a b h = elim (Bool-cases (b == a)) [
    | inl p ↦ absurd (ne_of_beq a b h (sym (eq_of_beq b a p)))
    | inr p ↦ p
  ]

module _ {ℓ κ} {K : Type ℓ} {V : Type κ} ⦃e : Eq K⦄ where
  -- No key stands twice.
  abbrev pub Distinct : Dict K V → Type κ
  Distinct [] = Unit
  Distinct ((k, v) ∷ d) = (get d k ≡ none) × Distinct d

  get-put_ne : (d : Dict K V) (k j : K) (v : V) → (k == j) ≡ false → get (put d k v) j ≡ get d j
  get-put_ne d k j v h = rw (get-put d k j v, h)

  pub Distinct-put : (d : Dict K V) (k : K) (v : V) → Distinct d → Distinct (put d k v)
  unfolding put get
  Distinct-put [] k v h = (refl, tt)
  Distinct-put ((j, w) ∷ d) k v h = elim (Bool-cases (j == k)) [
    | inl p ↦ rw p h
    | inr p ↦ rw p (get-put_ne d k j v (beq_sym_false j k p) ∙ h.0, Distinct-put d k v h.1)
  ]

  get-remove-none : (d : Dict K V) (k j : K) → get d j ≡ none → get (remove d k) j ≡ none
  get-remove-none d k j h = elim (Bool-cases (k == j)) [
    | inl p ↦ rw (get-remove d k j, p)
    | inr p ↦ rw (get-remove d k j, p, h)
  ]

  pub Distinct-remove : (d : Dict K V) (k : K) → Distinct d → Distinct (remove d k)
  unfolding remove
  Distinct-remove [] k h = tt
  Distinct-remove ((j, w) ∷ d) k h = elim (Bool-cases (j == k)) [
    | inl p ↦ rw p (Distinct-remove d k h.1)
    | inr p ↦ rw p (get-remove-none d k j h.0, Distinct-remove d k h.1)
  ]

  -- A dict whose entries are all found again in another.
  abbrev pub Entries : Dict K V → Dict K V → Type κ
  Entries [] d = Unit
  Entries ((k, v) ∷ rest) d = (get d k ≡ some v) × Entries rest d

  Entries-skip :
      (rest d : Dict K V) (k : K) (v : V)
      → get rest k ≡ none
      → Entries rest d
      → Entries rest ((k, v) ∷ d)
  unfolding get
  Entries-skip [] d k v h es = tt
  Entries-skip ((j, w) ∷ rest) d k v h es = elim (Bool-cases (j == k)) [
    | inl p ↦ absurd (some≢none (rw p at h))
    | inr p ↦ (rw (beq_sym_false j k p) es.0, Entries-skip rest d k v (rw p at h) es.1)
  ]

  pub Entries-refl : (d : Dict K V) → Distinct d → Entries d d
  unfolding get
  Entries-refl [] h = tt
  Entries-refl ((k, v) ∷ d) h = (rw (beq_refl k), Entries-skip d d k v h.0 (Entries-refl d h.1))

  pub Entries-remove :
      (rest d : Dict K V) (k : K) → get rest k ≡ none → Entries rest d → Entries rest (remove d k)
  unfolding get
  Entries-remove [] d k h es = tt
  Entries-remove ((j, w) ∷ rest) d k h es = elim (Bool-cases (j == k)) [
    | inl p ↦ absurd (some≢none (rw p at h))
    | inr p ↦
        (rw (get-remove d k j, beq_sym_false j k p) es.0, Entries-remove rest d k (rw p at h) es.1)
  ]

  -- What a key finds after a put.
  pub get-put_cases :
      (d : Dict K V) (k j : K) (v w : V)
      → get (put d k v) j ≡ some w
      → ((k ≡ j) × (v ≡ w)) ⊎ (((k == j) ≡ false) × (get d j ≡ some w))
  get-put_cases d k j v w h = elim (Bool-cases (k == j)) [
    | inl p ↦ inl (eq_of_beq k j p, some_inj (rw (get-put d k j v, p) at h))
    | inr p ↦ inr (p, rw (get-put d k j v, p) at h)
  ]
