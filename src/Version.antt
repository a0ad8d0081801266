-- ===== src/Version.antt =====
-- internal/version/bump.go: semantic versions, on code points.
pub mod Laws
pub mod Tags
use one_dev_army.Common.{
  ℕ, ◌==◌, Bool, true, false, ◌&&◌, ◌||◌, Option, none, some, List, [], ◌∷◌, ◌++◌, if◌then◌else◌,
}
use one_dev_army.Common.Int.{ℤ, pos, succ_int}
use one_dev_army.Common.Decimal.{itoa, atoi}

pub record Version : Type 0 where
  pub major : ℤ
  pub minor : ℤ
  pub patch : ℤ

-- `Version.String`
unfoldable pub print : Version → List ℕ
print v = itoa v.major ++ 46 ∷ (itoa v.minor ++ 46 ∷ itoa v.patch)

-- `strings.TrimPrefix(version, "v")`
unfoldable pub trim_v : List ℕ → List ℕ
trim_v [] = []
trim_v (c ∷ cs) = if c == 118 then cs else c ∷ cs

abbrev pub prepend : ℕ → List (List ℕ) → List (List ℕ)
prepend c [] = (c ∷ []) ∷ []
prepend c (p ∷ ps) = (c ∷ p) ∷ ps

-- `strings.Split(version, ".")`
unfoldable pub split : List ℕ → List (List ℕ)
split [] = [] ∷ []
split (c ∷ cs) = let rest = split cs in if c == 46 then [] ∷ rest else prepend c rest

abbrev pub version_of : Option ℤ → Option ℤ → Option ℤ → Option Version
version_of (some a) (some b) (some c) = some (record { major = a; minor = b; patch = c })
version_of _ _ _ = none

abbrev pub of_parts : List (List ℕ) → Option Version
of_parts (a ∷ b ∷ c ∷ []) = version_of (atoi a) (atoi b) (atoi c)
of_parts _ = none

unfoldable pub parse : List ℕ → Option Version
unfolding trim_v split
parse s = of_parts (split (trim_v s))

unfoldable pub bump_major : Version → Version
bump_major v = record { major = succ_int v.major; minor = pos 0; patch = pos 0 }

unfoldable pub bump_minor : Version → Version
bump_minor v = record { major = v.major; minor = succ_int v.minor; patch = pos 0 }

unfoldable pub bump_patch : Version → Version
bump_patch v = record { major = v.major; minor = v.minor; patch = succ_int v.patch }
