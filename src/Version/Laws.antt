-- ===== src/Version/Laws.antt =====
-- Printing and reading versions, and their order.
use one_dev_army.Common.{
  ℕ, zero, suc, ◌+◌, ◌≡◌, refl, ap, ◌∙◌, ◌==◌, Bool, true, false, not, ◌&&◌, some, List, [], ◌∷◌,
  ◌++◌, if◌then◌else◌, arith, all,
}
use one_dev_army.Common.Int.{ℤ, pos, negsuc, IsInt, ltb_ℤ, succ_int, max_int}
use one_dev_army.Common.Decimal.{itoa, print_nat, is_digit}
use one_dev_army.Common.Decimal.RoundTrip.{atoi-itoa, all-digits}
use one_dev_army.Version.{
  Version, print, trim_v, split, of_parts, parse, bump_major, bump_minor, bump_patch,
}

-- No dot, and no `v`.
abbrev pub is_plain : ℕ → Bool
is_plain c = not (c == 46) && not (c == 118)

plain_digits : (s : List ℕ) → all is_digit s ≡ true → all is_plain s ≡ true
plain_digits [] h = refl
plain_digits (c ∷ s) h = ground (arith, plain_digits s)

plain-itoa : (z : ℤ) → all is_plain (itoa z) ≡ true
unfolding itoa print_nat
plain-itoa (pos n) = plain_digits (print_nat n) (all-digits (suc n) n)
plain-itoa (negsuc n) = plain_digits (print_nat (n + 1)) (all-digits (suc (n + 1)) (n + 1))

split-plain : (s : List ℕ) → all is_plain s ≡ true → split s ≡ s ∷ []
unfolding split
split-plain [] h = refl
split-plain (c ∷ s) h = ground (arith, split-plain s)

split-append : (s t : List ℕ) → all is_plain s ≡ true → split (s ++ 46 ∷ t) ≡ s ∷ split t
unfolding split
split-append [] t h = refl
split-append (c ∷ s) t h = ground (arith, split-append s t)

trim_v-plain : (s t : List ℕ) → all is_plain s ≡ true → trim_v (s ++ 46 ∷ t) ≡ s ++ 46 ∷ t
unfolding trim_v
trim_v-plain [] t h = refl
trim_v-plain (c ∷ s) t h = ground arith

abbrev pub IsVersion : Version → Type 0
IsVersion v = IsInt v.major × IsInt v.minor × IsInt v.patch

split-print : (v : Version) → split (print v) ≡ itoa v.major ∷ itoa v.minor ∷ itoa v.patch ∷ []
unfolding print
split-print v =
    split-append (itoa v.major) (itoa v.minor ++ 46 ∷ itoa v.patch) (plain-itoa v.major)
    ∙ ap (λ (l : List (List ℕ)). itoa v.major ∷ l)
        (split-append (itoa v.minor) (itoa v.patch) (plain-itoa v.minor)
          ∙ ap (λ (l : List (List ℕ)). itoa v.minor ∷ l)
              (split-plain (itoa v.patch) (plain-itoa v.patch)))

trim_v-print : (v : Version) → trim_v (print v) ≡ print v
unfolding print
trim_v-print v =
    trim_v-plain (itoa v.major) (itoa v.minor ++ 46 ∷ itoa v.patch) (plain-itoa v.major)

-- A version whose three numbers fit in 64 bits is read back from its print, also behind a `v`.
pub parse-print :
    (v : Version) → IsVersion v → (parse (print v) ≡ some v) × (parse (118 ∷ print v) ≡ some v)
unfolding parse trim_v
parse-print v (a, b, c) =
    let parts : of_parts (split (print v)) ≡ some v =
      ap of_parts (split-print v)
      ∙ rw (atoi-itoa v.major a, atoi-itoa v.minor b, atoi-itoa v.patch c) in
    (ap (λ (s : List ℕ). of_parts (split s)) (trim_v-print v) ∙ parts, parts)

-- The order of `GetLatestTag`.
abbrev pub is_later : Version → Version → Bool
is_later v w =
    if ltb_ℤ w.major v.major
    then true
    else (if ltb_ℤ v.major w.major
        then false
        else (if ltb_ℤ w.minor v.minor
            then true
            else (if ltb_ℤ v.minor w.minor then false else ltb_ℤ w.patch v.patch)))

later-succ_int : (z : ℤ) → ltb_ℤ z (pos max_int) ≡ true → ltb_ℤ z (succ_int z) ≡ true
unfolding succ_int
later-succ_int (pos n) k = ground arith
later-succ_int (negsuc zero) k = refl
later-succ_int (negsuc (suc n)) k = ground arith

earlier-succ_int : (z : ℤ) → ltb_ℤ z (pos max_int) ≡ true → ltb_ℤ (succ_int z) z ≡ false
unfolding succ_int
earlier-succ_int (pos n) k = ground arith
earlier-succ_int (negsuc zero) k = refl
earlier-succ_int (negsuc (suc n)) k = ground arith

pub ltb_ℤ-irrefl : (z : ℤ) → ltb_ℤ z z ≡ false
ltb_ℤ-irrefl (pos n) = ground arith
ltb_ℤ-irrefl (negsuc n) = ground arith

-- Below the largest number each bump gives a later version, and sets what stands behind to zero.
pub bump-is_later :
    (v : Version)
    → (ltb_ℤ v.major (pos max_int) ≡ true → is_later (bump_major v) v ≡ true)
      × (ltb_ℤ v.minor (pos max_int) ≡ true → is_later (bump_minor v) v ≡ true)
      × (ltb_ℤ v.patch (pos max_int) ≡ true → is_later (bump_patch v) v ≡ true)
unfolding bump_major bump_minor bump_patch
bump-is_later v = (
  λ h. ground (arith, later-succ_int v.major h),
  λ h. ground (arith, later-succ_int v.minor h, ltb_ℤ-irrefl v.major),
  λ h. ground (arith, later-succ_int v.patch h, ltb_ℤ-irrefl v.major, ltb_ℤ-irrefl v.minor),
)
