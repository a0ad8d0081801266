-- ===== src/Mvp/Worker/Texts/Slug.antt =====
-- What a branch name may contain.
use one_dev_army.Common.{
  ℕ, zero, suc, ◌≤◌, ◌≡◌, refl, ◌==◌, Bool, true, false, ◌||◌, List, [], ◌∷◌, ltb, length, all,
  take, arith, if-split,
}
use one_dev_army.Mvp.Worker.Texts.{
  is_slug_char, replace_runs, keep, trim_right, trim_left, slug_codes,
}

-- A letter, a digit or a dash.
abbrev pub is_safe : ℕ → Bool
is_safe c = is_slug_char c || c == 45

abbrev pub begins_with_dash : List ℕ → Bool
begins_with_dash [] = false
begins_with_dash (c ∷ cs) = c == 45

abbrev pub ends_with_dash : List ℕ → Bool
ends_with_dash [] = false
ends_with_dash (c ∷ []) = c == 45
ends_with_dash (c ∷ d ∷ ds) = ends_with_dash (d ∷ ds)

all-replace_runs : (b : Bool) (cs : List ℕ) → all is_safe (replace_runs b cs) ≡ true
unfolding replace_runs
all-replace_runs b [] = refl
all-replace_runs b (c ∷ cs) = ground (arith, all-replace_runs false cs, all-replace_runs true cs)

module _ (p : ℕ → Bool) where
  all-keep : (c : ℕ) (cs : List ℕ) → p c ≡ true → all p cs ≡ true → all p (keep c cs) ≡ true
  all-keep c [] h k = ground arith
  all-keep c (d ∷ ds) h k = ground arith

  pub all-trim_right : (cs : List ℕ) → all p cs ≡ true → all p (trim_right cs) ≡ true
  unfolding trim_right
  all-trim_right [] h = refl
  all-trim_right (c ∷ cs) h = ground (arith, all-trim_right cs, all-keep c (trim_right cs))

  pub all-trim_left : (cs : List ℕ) → all p cs ≡ true → all p (trim_left cs) ≡ true
  unfolding trim_left
  all-trim_left [] h = refl
  all-trim_left (c ∷ cs) h = ground (arith, all-trim_left cs)

  pub all-take : (n : ℕ) (cs : List ℕ) → all p cs ≡ true → all p (take n cs) ≡ true
  all-take zero cs h = refl
  all-take (suc n) [] h = refl
  all-take (suc n) (c ∷ cs) h = ground (arith, all-take n cs)

ends-keep : (c : ℕ) (cs : List ℕ) → ends_with_dash cs ≡ false → ends_with_dash (keep c cs) ≡ false
ends-keep c [] h = ground arith
ends-keep c (d ∷ ds) h = h

pub ends-trim_right : (cs : List ℕ) → ends_with_dash (trim_right cs) ≡ false
unfolding trim_right
ends-trim_right [] = refl
ends-trim_right (c ∷ cs) = ends-keep c (trim_right cs) (ends-trim_right cs)

begins-keep : (c : ℕ) (cs : List ℕ) → (c == 45) ≡ false → begins_with_dash (keep c cs) ≡ false
begins-keep c [] h = ground arith
begins-keep c (d ∷ ds) h = h

pub begins-trim_right :
    (cs : List ℕ) → begins_with_dash cs ≡ false → begins_with_dash (trim_right cs) ≡ false
unfolding trim_right
begins-trim_right [] h = refl
begins-trim_right (c ∷ cs) h = begins-keep c (trim_right cs) h

pub begins-trim_left : (cs : List ℕ) → begins_with_dash (trim_left cs) ≡ false
unfolding trim_left
begins-trim_left [] = refl
begins-trim_left (c ∷ cs) = ground (arith, begins-trim_left cs)

pub begins-take :
    (n : ℕ) (cs : List ℕ) → begins_with_dash cs ≡ false → begins_with_dash (take n cs) ≡ false
begins-take zero cs h = refl
begins-take (suc n) [] h = refl
begins-take (suc n) (c ∷ cs) h = h

length-keep : (c : ℕ) (cs : List ℕ) → length (keep c cs) ≤ suc (length cs)
length-keep c [] = ground arith
length-keep c (d ∷ ds) = omega arith

pub length-trim_right : (cs : List ℕ) → length (trim_right cs) ≤ length cs
unfolding trim_right
length-trim_right [] = omega arith
length-trim_right (c ∷ cs) = omega (arith, length-keep c (trim_right cs), length-trim_right cs)

pub length-take : (n : ℕ) (cs : List ℕ) → length (take n cs) ≤ n
length-take zero cs = omega arith
length-take (suc n) [] = omega arith
length-take (suc n) (c ∷ cs) = omega (arith, length-take n cs)

abbrev pub IsSlug : List ℕ → Type 0
IsSlug cs =
    (length cs ≤ 40)
    × (all is_safe cs ≡ true)
    × (begins_with_dash cs ≡ false)
    × (ends_with_dash cs ≡ false)

-- The slug of every title has at most 40 characters, all of them letters, digits and dashes, and
-- neither begins nor ends with a dash, also when it was cut.
pub slug_codes-IsSlug : (title : List ℕ) → IsSlug (slug_codes title)
unfolding slug_codes
slug_codes-IsSlug title =
    let trimmed = trim_left (replace_runs false title) in
    let s = trim_right trimmed in
    let safe : all is_safe s ≡ true =
      all-trim_right is_safe trimmed
        (all-trim_left is_safe (replace_runs false title) (all-replace_runs false title)) in
    let begins : begins_with_dash s ≡ false =
      begins-trim_right trimmed (begins-trim_left (replace_runs false title)) in
    if-split IsSlug (ltb 40 (length s))
      (λ long. (
        omega (arith, length-trim_right (take 40 s), length-take 40 s),
        all-trim_right is_safe (take 40 s) (all-take is_safe 40 s safe),
        begins-trim_right (take 40 s) (begins-take 40 s begins),
        ends-trim_right (take 40 s),
      ))
      (λ short. (ground (arith, short), safe, begins, ends-trim_right trimmed))
