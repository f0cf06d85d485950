-- ===== src/Common/Decimal.antt =====
-- The text of keys: the characters of a string, Python's str() of an int, and the colon that an
-- f-string such as f"{scope}:{chat}:{message}" puts between its parts.
use Prim.Native.Nat.{ℕ, zero, suc, ◌+◌, ◌-◌, ◌*◌, ◌/◌, ◌%◌, ◌<◌, ◌≤◌}
use Prim.Native.Char.{code}
use Prim.Native.String.{String}
use mathlib.Core.Path.{◌≡◌, refl, sym, ap, ap₂, subst}
use mathlib.Core.Logic.{◌≢◌, inl, inr}
use mathlib.Core.List.{List, [], ◌∷◌, ◌++◌}
use native.Mathlib.Omega.{arith}
use text.Mathlib.TextEquality.{Char-path}
use tdaudiibncba.Common.Tests.{ltb, if◌then◌else◌, Bool-cases}
use tdaudiibncba.Common.Integers.{ℤ, pos, negsuc}
use tdaudiibncba.Common.Lists.{All, All-append}

abbrev pub Text : Type 0
Text = List ℕ

-- The code points of a string.
abbrev pub codes : String → Text
codes String.[] = []
codes (String.◌∷◌ c s) = code c ∷ codes s

abbrev first : Text → ℕ
first [] = 0
first (c ∷ _) = c

abbrev rest : Text → Text
rest [] = []
rest (_ ∷ cs) = cs

nil-codes : (s : String) → codes s ≡ [] → s ≡ String.[]
nil-codes String.[] h = refl
nil-codes (String.◌∷◌ c s) h = cc

pub codes-injective : (s t : String) → codes s ≡ codes t → s ≡ t
codes-injective String.[] t h = sym (nil-codes t (sym h))
codes-injective (String.◌∷◌ c s) String.[] h = nil-codes (String.◌∷◌ c s) h
codes-injective (String.◌∷◌ c s) (String.◌∷◌ d t) h =
    ap₂ String.◌∷◌ (Char-path c d (ap first h)) (codes-injective s t (ap rest h))

-- str(n), most significant digit first; `suc n` rounds are enough.
unfoldable pub digits : ℕ → ℕ → Text
digits zero n = []
digits (suc f) n =
    let front = digits f (n / 10) in if ltb n 10 then (48 + n) ∷ [] else front ++ (48 + n % 10) ∷ []

unfoldable pub show_nat : ℕ → Text
unfolding digits
show_nat n = digits (suc n) n

unfoldable pub show_int : ℤ → Text
unfolding show_nat
show_int (pos n) = show_nat n
show_int (negsuc n) = b'-' ∷ show_nat (suc n)

-- Reading the digits back.
value : ℕ → Text → ℕ
value acc [] = acc
value acc (c ∷ cs) = value (acc * 10 + (c - 48)) cs

value-snoc : (acc : ℕ) (cs : Text) (c : ℕ) → value acc (cs ++ c ∷ []) ≡ value acc cs * 10 + (c - 48)
unfolding value
value-snoc acc [] c = refl
value-snoc acc (d ∷ cs) c = value-snoc (acc * 10 + (d - 48)) cs c

value-digits : (f n : ℕ) → n < f → value 0 (digits f n) ≡ n
unfolding digits value
value-digits zero n h = elim h [ ]
value-digits (suc f) n h =
    ground (arith, value-digits f (n / 10), value-snoc 0 (digits f (n / 10)) (48 + n % 10))

pub show_nat-injective : (m n : ℕ) → show_nat m ≡ show_nat n → m ≡ n
unfolding show_nat
show_nat-injective m n h = omega (
  arith,
  value-digits (suc m) m (omega arith),
  value-digits (suc n) n (omega arith),
  ap (value 0) h,
)

-- A digit's code point, from '0' to '9'.
abbrev IsDigit : ℕ → Type 0
IsDigit c = (48 ≤ c) × (c < 58)

digits-IsDigit : (f n : ℕ) → All IsDigit (digits f n)
unfolding digits
digits-IsDigit zero n = tt
digits-IsDigit (suc f) n = elim (Bool-cases (ltb n 10)) [
  | inl small ↦ rw small (ground arith)
  | inr large ↦ rw large (
      All-append IsDigit (digits f (n / 10)) ((48 + n % 10) ∷ []) (digits-IsDigit f (n / 10))
        (omega arith))
]

abbrev pub ColonFree : Text → Type 0
ColonFree = All (λ c. c ≢ b':')

ColonFree-digits : (cs : Text) → All IsDigit cs → ColonFree cs
ColonFree-digits [] h = tt
ColonFree-digits (c ∷ cs) h = (omega arith, ColonFree-digits cs h.1)

pub show_nat-ColonFree : (n : ℕ) → ColonFree (show_nat n)
unfolding show_nat
show_nat-ColonFree n = ColonFree-digits (digits (suc n) n) (digits-IsDigit (suc n) n)

pub show_int-ColonFree : (i : ℤ) → ColonFree (show_int i)
unfolding show_int
show_int-ColonFree (pos n) = show_nat-ColonFree n
show_int-ColonFree (negsuc n) = (omega arith, show_nat-ColonFree (suc n))

-- A number never prints as a text that begins with the sign.
show_nat-sign : (n : ℕ) (cs : Text) → show_nat n ≢ b'-' ∷ cs
unfolding show_nat
show_nat-sign n cs p = omega (arith, subst (All IsDigit) p (digits-IsDigit (suc n) n))

pub show_int-injective : (i j : ℤ) → show_int i ≡ show_int j → i ≡ j
unfolding show_int
show_int-injective (pos m) (pos n) h = ap pos (show_nat-injective m n h)
show_int-injective (negsuc m) (negsuc n) h =
    ap negsuc (omega (arith, show_nat-injective (suc m) (suc n) (ap rest h)))
show_int-injective (pos m) (negsuc n) h = absurd (show_nat-sign m (show_nat (suc n)) h)
show_int-injective (negsuc m) (pos n) h = absurd (show_nat-sign n (show_nat (suc m)) (sym h))

-- f"{a}:{b}"
infixl 60 ◌⋆◌
abbrev pub ◌⋆◌ : Text → Text → Text
a ⋆ b = a ++ b':' ∷ b

-- The first colon ends a part without colons.
pub split-first :
    (a a' b b' : Text) → ColonFree a → ColonFree a' → a ⋆ b ≡ a' ⋆ b' → (a ≡ a') × (b ≡ b')
split-first [] [] b b' h h' p = (refl, ap rest p)
split-first [] (c ∷ a') b b' h h' p = absurd (h'.0 (sym (ap first p)))
split-first (c ∷ a) [] b b' h h' p = absurd (h.0 (ap first p))
split-first (c ∷ a) (d ∷ a') b b' h h' p =
    let (q, r) = split-first a a' b b' h.1 h'.1 (ap rest p) in (ap₂ ◌∷◌ (ap first p) q, r)

pub not-ColonFree : (s b : Text) → ¬ ColonFree (s ++ b':' ∷ b)
not-ColonFree [] b h = h.0 refl
not-ColonFree (c ∷ s) b h = not-ColonFree s b h.1

-- The last colon begins a part without colons.
pub split-last :
    (a a' b b' : Text) → ColonFree b → ColonFree b' → a ⋆ b ≡ a' ⋆ b' → (a ≡ a') × (b ≡ b')
split-last [] [] b b' h h' p = (refl, ap rest p)
split-last [] (c ∷ a') b b' h h' p = absurd (not-ColonFree a' b' (subst ColonFree (ap rest p) h))
split-last (c ∷ a) [] b b' h h' p =
    absurd (not-ColonFree a b (subst ColonFree (sym (ap rest p)) h'))
split-last (c ∷ a) (d ∷ a') b b' h h' p =
    let (q, r) = split-last a a' b b' h h' (ap rest p) in (ap₂ ◌∷◌ (ap first p) q, r)
