-- ===== src/Common/Decimal.antt =====
-- `strconv.Itoa` and `strconv.Atoi`, on code points.
pub mod RoundTrip
use Prim.Native.Nat.{ℕ, zero, suc, ◌+◌, ◌-◌, ◌*◌, ◌/◌, ◌%◌}
use mathlib.Core.Bool.{Bool, ◌||◌, ◌&&◌}
use mathlib.Core.Option.{Option, none, some}
use mathlib.Core.List.{List, [], ◌∷◌, ◌++◌}
use one_dev_army.Common.Tests.{ltb, leb, if◌then◌else◌, ◌==◌}
use one_dev_army.Common.Int.{ℤ, pos, negsuc, max_int}

-- The digits of a number below 10 ^ fuel.
unfoldable pub digits : ℕ → ℕ → List ℕ
digits zero n = []
digits (suc fuel) n =
    let rest = digits fuel (n / 10) in
    if ltb n 10 then (48 + n) ∷ [] else rest ++ (48 + n % 10) ∷ []

unfoldable pub print_nat : ℕ → List ℕ
unfolding digits
print_nat n = digits (suc n) n

unfoldable pub itoa : ℤ → List ℕ
unfolding print_nat
itoa (pos n) = print_nat n
itoa (negsuc n) = 45 ∷ print_nat (n + 1)

abbrev pub is_digit : ℕ → Bool
is_digit c = leb 48 c && leb c 57

-- The value of a text of digits behind `n`.
unfoldable pub read_digits : ℕ → List ℕ → Option ℕ
read_digits n [] = some n
read_digits n (c ∷ cs) =
    let later = read_digits (n * 10 + (c - 48)) cs in if is_digit c then later else none

-- One digit at least.
unfoldable pub read_nat : List ℕ → Option ℕ
unfolding read_digits
read_nat [] = none
read_nat (c ∷ cs) = read_digits 0 (c ∷ cs)

abbrev pub in_range : Option ℕ → Option ℤ
in_range none = none
in_range (some n) = if leb n max_int then some (pos n) else none

-- The smallest integer is -(max_int + 1).
abbrev pub in_range_minus : Option ℕ → Option ℤ
in_range_minus none = none
in_range_minus (some zero) = some (pos 0)
in_range_minus (some (suc n)) = if leb n max_int then some (negsuc n) else none

-- One sign at most; what is out of range is an error.
unfoldable pub atoi : List ℕ → Option ℤ
unfolding read_nat
atoi [] = none
atoi (c ∷ cs) =
    if c == 45
    then in_range_minus (read_nat cs)
    else (if c == 43 then in_range (read_nat cs) else in_range (read_nat (c ∷ cs)))
