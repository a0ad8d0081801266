-- ===== src/Workers/Texts/Branches.antt =====
-- What a branch name of the pool may contain.
use one_dev_army.Common.{
  ℕ, zero, suc, ◌≤◌, ◌≡◌, refl, ◌==◌, Bool, true, false, not, ◌&&◌, List, [], ◌∷◌, map, ltb, length,
  all, take, select, arith, if-split,
}
use one_dev_army.Mvp.Worker.Texts.{keep, trim_left, trim_right}
use one_dev_army.Mvp.Worker.Texts.Slug.{
  begins_with_dash, ends_with_dash, all-trim_right, all-trim_left, all-take, ends-trim_right,
  begins-trim_right, begins-trim_left, begins-take, length-trim_right, length-take,
}
use one_dev_army.Workers.Texts.{
  is_kept, collapse, trim_blanks_left, trim_blanks_right, dash_space, slugify_codes,
}
use one_dev_army.Common.Text.{lower}

all-select : (p : ℕ → Bool) (cs : List ℕ) → all p (select p cs) ≡ true
all-select p [] = refl
all-select p (c ∷ cs) = ground (arith, all-select p cs)

all-collapse : (p : ℕ → Bool) (cs : List ℕ) → all p cs ≡ true → all p (collapse cs) ≡ true
unfolding collapse
all-collapse p [] h = refl
all-collapse p (c ∷ []) h = h
all-collapse p (c ∷ d ∷ ds) h = ground (arith, all-collapse p (d ∷ ds))

-- No two dashes stand side by side.
abbrev pub is_single : List ℕ → Bool
is_single [] = true
is_single (c ∷ cs) = not (c == 45 && begins_with_dash cs) && is_single cs

begins-collapse : (d : ℕ) (ds : List ℕ) → begins_with_dash (collapse (d ∷ ds)) ≡ (d == 45)
unfolding collapse
begins-collapse d [] = refl
begins-collapse d (e ∷ es) = ground (arith, begins-collapse e es)

single-collapse : (cs : List ℕ) → is_single (collapse cs) ≡ true
unfolding collapse
single-collapse [] = refl
single-collapse (c ∷ []) = ground arith
single-collapse (c ∷ d ∷ ds) = ground (arith, single-collapse (d ∷ ds), begins-collapse d ds)

single-trim_left : (cs : List ℕ) → is_single cs ≡ true → is_single (trim_left cs) ≡ true
unfolding trim_left
single-trim_left [] h = refl
single-trim_left (c ∷ cs) h = ground (arith, single-trim_left cs)

single-keep :
    (c : ℕ) (cs : List ℕ)
    → is_single cs ≡ true
    → (c == 45 && begins_with_dash cs) ≡ false
    → is_single (keep c cs) ≡ true
single-keep c [] h k = ground arith
single-keep c (d ∷ ds) h k = ground arith

-- Trimming on the right brings no dash to the front that was not there.
begins-trimmed :
    (cs : List ℕ) → begins_with_dash cs ≡ false → begins_with_dash (trim_right cs) ≡ false
begins-trimmed cs h = begins-trim_right cs h

single-trim_right : (cs : List ℕ) → is_single cs ≡ true → is_single (trim_right cs) ≡ true
unfolding trim_right
single-trim_right [] h = refl
single-trim_right (c ∷ cs) h =
    single-keep c (trim_right cs) (ground (arith, single-trim_right cs))
      (ground (arith, begins-trimmed cs))

single-take : (n : ℕ) (cs : List ℕ) → is_single cs ≡ true → is_single (take n cs) ≡ true
single-take zero cs h = refl
single-take (suc n) [] h = refl
single-take (suc n) (c ∷ cs) h = ground (arith, single-take n cs, begins-take n cs)

abbrev pub IsBranchSlug : List ℕ → Type 0
IsBranchSlug cs =
    (length cs ≤ 50)
    × (all is_kept cs ≡ true)
    × (is_single cs ≡ true)
    × (begins_with_dash cs ≡ false)
    × (ends_with_dash cs ≡ false)

-- The slug of every title has at most 50 characters, all of them letters, digits and dashes, has no
-- two dashes side by side, and neither begins nor ends with a dash, also when it was cut.
pub slugify_codes-IsBranchSlug : (title : List ℕ) → IsBranchSlug (slugify_codes title)
unfolding slugify_codes
slugify_codes-IsBranchSlug title =
    let spaced = map dash_space (map lower (trim_blanks_right (trim_blanks_left title))) in
    let dense = collapse (select is_kept spaced) in
    let trimmed = trim_left dense in
    let s = trim_right trimmed in
    let kept : all is_kept s ≡ true = all-trim_right is_kept trimmed (
      all-trim_left is_kept dense
        (all-collapse is_kept (select is_kept spaced) (all-select is_kept spaced))) in
    let single : is_single s ≡ true =
      single-trim_right trimmed
        (single-trim_left dense (single-collapse (select is_kept spaced))) in
    let begins : begins_with_dash s ≡ false = begins-trim_right trimmed (begins-trim_left dense) in
    if-split IsBranchSlug (ltb 50 (length s))
      (λ long. (
        omega (arith, length-trim_right (take 50 s), length-take 50 s),
        all-trim_right is_kept (take 50 s) (all-take is_kept 50 s kept),
        single-trim_right (take 50 s) (single-take 50 s single),
        begins-trim_right (take 50 s) (begins-take 50 s begins),
        ends-trim_right (take 50 s),
      ))
      (λ short. (ground (arith, short), kept, single, begins, ends-trim_right trimmed))
