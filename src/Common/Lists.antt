-- ===== src/Common/Lists.antt =====
-- Lists measured by native numbers, Boolean searches, and predicates on all members.
use Prim.Native.Nat.{ℕ, zero, suc, ◌+◌, ◌<◌}
use mathlib.Core.Path.{◌≡◌, refl}
use mathlib.Core.Logic.{◌⊎◌, inl, inr}
use mathlib.Core.Bool.{Bool, true, false, ◌||◌, false≢true}
use mathlib.Core.Option.{Option, none, some}
use mathlib.Core.List.{List, [], ◌∷◌, ◌++◌, Memᴰ}
use native.Mathlib.Omega.{arith}
use tdaudiibncba.Common.Tests.{if◌then◌else◌, Bool-cases}
use tdaudiibncba.Common.Equality.{Eq, ◌==◌, beq_refl, eq_of_beq}

module _ {ℓ} {A : Type ℓ} where
  abbrev pub length : List A → ℕ
  length [] = 0
  length (x ∷ xs) = suc (length xs)

  abbrev pub get_elem? : List A → ℕ → Option A
  get_elem? [] i = none
  get_elem? (x ∷ xs) zero = some x
  get_elem? (x ∷ xs) (suc i) = get_elem? xs i

  -- any(test(x) for x in xs)
  unfoldable pub exists_by : (A → Bool) → List A → Bool
  exists_by test [] = false
  exists_by test (x ∷ xs) = test x || exists_by test xs

  -- [x for x in xs if test(x)]
  unfoldable pub keep : (A → Bool) → List A → List A
  keep test [] = []
  keep test (x ∷ xs) = let rest = keep test xs in if test x then x ∷ rest else rest

  -- next((x for x in xs if test(x)), None)
  unfoldable pub find : (A → Bool) → List A → Option A
  find test [] = none
  find test (x ∷ xs) = let rest = find test xs in if test x then some x else rest

  -- UPDATE ... SET change WHERE test: every row that passes is replaced.
  unfoldable pub update_by : (A → Bool) → (A → A) → List A → List A
  update_by test change [] = []
  update_by test change (x ∷ xs) = (if test x then change x else x) ∷ update_by test change xs

  pub length-append : (xs ys : List A) → length (xs ++ ys) ≡ length xs + length ys
  length-append [] ys = omega arith
  length-append (x ∷ xs) ys = omega (arith, length-append xs ys)

module _ {ℓ} {A : Type ℓ} ⦃e : Eq A⦄ where
  -- `a in xs`
  unfoldable pub contains : List A → A → Bool
  contains [] a = false
  contains (x ∷ xs) a = (a == x) || contains xs a

abbrev pub All {ℓ κ} : {A : Type ℓ} → (A → Type κ) → List A → Type κ
All P [] = Unit
All P (x ∷ xs) = P x × All P xs

module _ {ℓ κ} {A : Type ℓ} (P : A → Type κ) where
  pub All-append : (xs ys : List A) → All P xs → All P ys → All P (xs ++ ys)
  All-append [] ys hx hy = hy
  All-append (x ∷ xs) ys hx hy = (hx.0, All-append xs ys hx.1 hy)

module _ {ℓ} {A : Type ℓ} ⦃e : Eq A⦄ where
  pub contains_of_mem : (a : A) (xs : List A) → Memᴰ a xs → contains xs a ≡ true
  unfolding contains
  contains_of_mem a [] m = elim m [ ]
  contains_of_mem a (x ∷ xs) (Memᴰ.head p) = rw (← p, beq_refl a)
  contains_of_mem a (x ∷ xs) (Memᴰ.tail m) = ground (arith, contains_of_mem a xs m)

  pub mem_of_contains : (a : A) (xs : List A) → contains xs a ≡ true → Memᴰ a xs
  unfolding contains
  mem_of_contains a [] h = absurd (false≢true h)
  mem_of_contains a (x ∷ xs) h = elim (Bool-cases (a == x)) [
    | inl q ↦ Memᴰ.head (eq_of_beq a x q)
    | inr q ↦ Memᴰ.tail (mem_of_contains a xs (rw q at h))
  ]

-- The cases of a member of a joined list, of a filtered list and of a mapped list.
module _ {ℓ} {A : Type ℓ} where
  pub mem-append_cases : {a : A} (xs ys : List A) → Memᴰ a (xs ++ ys) → Memᴰ a xs ⊎ Memᴰ a ys
  mem-append_cases [] ys m = inr m
  mem-append_cases (x ∷ xs) ys (Memᴰ.head p) = inl (Memᴰ.head p)
  mem-append_cases (x ∷ xs) ys (Memᴰ.tail m) = elim (mem-append_cases xs ys m) [
    | inl l ↦ inl (Memᴰ.tail l)
    | inr r ↦ inr r
  ]

  pub mem-append_left : {a : A} (xs ys : List A) → Memᴰ a xs → Memᴰ a (xs ++ ys)
  mem-append_left [] ys m = elim m [ ]
  mem-append_left (x ∷ xs) ys (Memᴰ.head p) = Memᴰ.head p
  mem-append_left (x ∷ xs) ys (Memᴰ.tail m) = Memᴰ.tail (mem-append_left xs ys m)

  pub mem-append_right : {a : A} (xs ys : List A) → Memᴰ a ys → Memᴰ a (xs ++ ys)
  mem-append_right [] ys m = m
  mem-append_right (x ∷ xs) ys m = Memᴰ.tail (mem-append_right xs ys m)

  pub mem_of_get_elem? : (xs : List A) (i : ℕ) (a : A) → get_elem? xs i ≡ some a → Memᴰ a xs
  mem_of_get_elem? [] i a h = cc
  mem_of_get_elem? (x ∷ xs) zero a h = Memᴰ.head (cc)
  mem_of_get_elem? (x ∷ xs) (suc i) a h = Memᴰ.tail (mem_of_get_elem? xs i a h)

  pub get_elem?-total : (xs : List A) (i : ℕ) → i < length xs → (a : A) × (get_elem? xs i ≡ some a)
  get_elem?-total [] i h = elim h [ ]
  get_elem?-total (x ∷ xs) zero h = (x, refl)
  get_elem?-total (x ∷ xs) (suc i) h = get_elem?-total xs i (omega arith)
