-- ===== src/Dashboard/Sprint/Numbers.antt =====
-- The version of a release.
use one_dev_army.Common.{
  ◌≡◌, ap, ◌∙◌, Bool, true, false, some, String, str_eq, if◌then◌else◌, arith, zero, suc,
}
use one_dev_army.Common.Int.{ℤ, pos, negsuc, max_int, IsInt, ltb_ℤ, succ_int}
use one_dev_army.Version.{Version, print, parse, bump_major, bump_minor, bump_patch}
use one_dev_army.Version.Laws.{IsVersion, is_later, parse-print, bump-is_later}
use one_dev_army.Dashboard.Sprint.{bumped, parsed_or_zero, calculate_new_version}

-- The number that a bump raises.
abbrev pub raised : String → Version → ℤ
raised bump v =
    if str_eq bump "major" then v.major else (if str_eq bump "minor" then v.minor else v.patch)

succ_int-IsInt : (z : ℤ) → IsInt z → ltb_ℤ z (pos max_int) ≡ true → IsInt (succ_int z)
unfolding succ_int
succ_int-IsInt (pos n) h k = ground arith
succ_int-IsInt (negsuc zero) h k = omega arith
succ_int-IsInt (negsuc (suc n)) h k = ground arith

-- The bump gives a version of the same width that is later.
abbrev Raises : Version → Version → Type 0
Raises v w = IsVersion w × (is_later w v ≡ true)

raised_lem :
    (major minor : Bool) (v : Version)
    → IsVersion v
    → ltb_ℤ (if major then v.major else (if minor then v.minor else v.patch)) (pos max_int) ≡ true
    → Raises v (if major then bump_major v else (if minor then bump_minor v else bump_patch v))
unfolding bump_major bump_minor bump_patch
raised_lem true minor v (a, b, c) h =
    ((succ_int-IsInt v.major a h, omega arith, omega arith), (bump-is_later v).0 h)
raised_lem false true v (a, b, c) h =
    ((a, succ_int-IsInt v.minor b h, omega arith), (bump-is_later v).1 h)
raised_lem false false v (a, b, c) h = ((a, b, succ_int-IsInt v.patch c h), (bump-is_later v).2 h)

-- From the print of a version of 64-bit numbers, of which the one to be raised is not the largest: the
-- new version reads back as the bumped one, which is later than the old one.
pub calculate_new_version-is_later :
    (bump : String) (v : Version)
    → IsVersion v
    → ltb_ℤ (raised bump v) (pos max_int) ≡ true
    → (parse (calculate_new_version (print v) bump) ≡ some (bumped bump v))
      × (is_later (bumped bump v) v ≡ true)
unfolding calculate_new_version
calculate_new_version-is_later bump v h k =
    let (w, later) = raised_lem (str_eq bump "major") (str_eq bump "minor") v h k in
    (
      ap (λ o. parse (print (bumped bump (parsed_or_zero o)))) (parse-print v h).0
          ∙ (parse-print (bumped bump v) w).0,
      later,
    )
