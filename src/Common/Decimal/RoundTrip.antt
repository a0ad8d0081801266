-- ===== src/Common/Decimal/RoundTrip.antt =====
-- What is printed is read back.
use Prim.Native.Nat.{ℕ, zero, suc, ◌+◌, ◌-◌, ◌*◌, ◌/◌, ◌%◌, ◌<◌}
use mathlib.Core.Path.{◌≡◌, refl, ap, ◌∙◌}
use mathlib.Core.Bool.{Bool, true, false}
use mathlib.Core.Option.{some}
use mathlib.Core.List.{List, [], ◌∷◌, ◌++◌}
use native.Mathlib.Omega.{arith}
use one_dev_army.Common.Tests.{ltb, if-split}
use one_dev_army.Common.Int.{ℤ, pos, negsuc, IsInt}
use one_dev_army.Common.Lists.{all}
use one_dev_army.Common.Decimal.{
  digits, print_nat, itoa, is_digit, read_digits, read_nat, in_range, in_range_minus, atoi,
}

read_digits-append :
    (n m c : ℕ) (s : List ℕ)
    → read_digits n s ≡ some m
    → is_digit c ≡ true
    → read_digits n (s ++ c ∷ []) ≡ some (m * 10 + (c - 48))
unfolding read_digits
read_digits-append n m c [] h d = ground arith
read_digits-append n m c (x ∷ s) h d = ground (arith, read_digits-append (n * 10 + (x - 48)) m c s)

read_digits-digits : (fuel n : ℕ) → n < fuel → read_digits 0 (digits fuel n) ≡ some n
unfolding digits read_digits
read_digits-digits zero n h = elim h [ ]
read_digits-digits (suc fuel) n h =
    if-split (λ s. read_digits 0 s ≡ some n) (ltb n 10) (λ e. ground arith)
      (λ e.
        let tenth : n / 10 < fuel = ground arith in
        read_digits-append 0 (n / 10) (48 + n % 10) (digits fuel (n / 10))
          (read_digits-digits fuel (n / 10) tenth) (ground arith)
        ∙ ap some (ground arith))

all-append : (p : ℕ → Bool) (s t : List ℕ) → all p s ≡ true → all p t ≡ true → all p (s ++ t) ≡ true
all-append p [] t h k = k
all-append p (x ∷ s) t h k = ground (arith, all-append p s t)

-- A print is one digit or more, and nothing else.
pub all-digits : (fuel n : ℕ) → all is_digit (digits fuel n) ≡ true
unfolding digits
all-digits zero n = refl
all-digits (suc fuel) n =
    if-split (λ s. all is_digit s ≡ true) (ltb n 10) (λ e. ground arith)
      (λ e.
        all-append is_digit (digits fuel (n / 10)) ((48 + n % 10) ∷ []) (all-digits fuel (n / 10))
          (ground arith))

abbrev pub is_filled : List ℕ → Bool
is_filled [] = false
is_filled (c ∷ cs) = true

filled-append : (s : List ℕ) (c : ℕ) → is_filled (s ++ c ∷ []) ≡ true
filled-append [] c = refl
filled-append (x ∷ s) c = refl

pub filled-print_nat : (n : ℕ) → is_filled (print_nat n) ≡ true
unfolding print_nat digits
filled-print_nat n =
    if-split (λ s. is_filled s ≡ true) (ltb n 10) (λ e. refl)
      (λ e. filled-append (digits n (n / 10)) (48 + n % 10))

read_nat-filled : (s : List ℕ) → is_filled s ≡ true → read_nat s ≡ read_digits 0 s
unfolding read_nat
read_nat-filled [] h = cc
read_nat-filled (c ∷ s) h = refl

pub read_nat-print_nat : (n : ℕ) → read_nat (print_nat n) ≡ some n
unfolding print_nat
read_nat-print_nat n =
    read_nat-filled (print_nat n) (filled-print_nat n) ∙ read_digits-digits (suc n) n (omega arith)

atoi-unsigned :
    (s : List ℕ) → is_filled s ≡ true → all is_digit s ≡ true → atoi s ≡ in_range (read_nat s)
unfolding atoi
atoi-unsigned [] h k = cc
atoi-unsigned (c ∷ s) h k = ground arith

-- A number of 64 bits is read back from its print.
pub atoi-itoa : (z : ℤ) → IsInt z → atoi (itoa z) ≡ some z
unfolding itoa atoi
atoi-itoa (pos n) h =
    atoi-unsigned (print_nat n) (filled-print_nat n) (all-digits (suc n) n)
    ∙ (ap in_range (read_nat-print_nat n) ∙ ground arith)
atoi-itoa (negsuc n) h = ap in_range_minus (read_nat-print_nat (n + 1)) ∙ ground arith
