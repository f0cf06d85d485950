-- ===== src/Common/Spelling.antt =====
-- Texts that the program puts together: Python's str() of a natural number, and a prefix before a text.
use Prim.Native.Nat.{ℕ, zero, suc, ◌/◌, ◌%◌}
use Prim.Native.String
use Prim.Native.String.{String}
use mathlib.Core.Path.{◌≡◌, refl}
use tdaudiibncba.Common.Tests.{ltb, nat_beq, if◌then◌else◌}

-- f"{a}{b}"
abbrev pub joined : String → String → String
joined a b = String.◌++◌ a b

abbrev digit : ℕ → String
digit n =
    if nat_beq n 0
    then "0"
    else if nat_beq n 1
    then "1"
    else if nat_beq n 2
    then "2"
    else if nat_beq n 3
    then "3"
    else if nat_beq n 4
    then "4"
    else if nat_beq n 5
    then "5"
    else if nat_beq n 6
    then "6"
    else if nat_beq n 7
    then "7"
    else if nat_beq n 8
    then "8"
    else "9"

unfoldable pub spelled : ℕ → ℕ → String
spelled zero n = ""
spelled (suc f) n =
    let front = spelled f (n / 10) in if ltb n 10 then digit n else joined front (digit (n % 10))

-- str(n); `suc n` rounds are enough.
unfoldable pub spell : ℕ → String
spell n = spelled (suc n) n

spell_runs : joined "ai:" (spell 2047) ≡ "ai:2047"
unfolding spell spelled
spell_runs = refl
