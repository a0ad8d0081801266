-- ===== src/Version/Tags.antt =====
-- internal/github/tags.go: the latest tag. The `gh` program answers with the refs, or with an error
-- whose text may hold 404.
use Prim.Native.String.{◌++◌}
use one_dev_army.Common.{
  ℕ, ◌≡◌, refl, ◌==◌, true, false, Option, none, some, List, [], ◌∷◌, if◌then◌else◌, arith, All,
  if-split, ◌⊎◌, inl, inr,
}
use one_dev_army.Common.Effect.{Result, ok, err}
use one_dev_army.Common.Text.{codes, contains}
use one_dev_army.Common.Int.{ℤ, pos, negsuc, ltb_ℤ}
use one_dev_army.Version.{Version, trim_v, parse, print}
use one_dev_army.Version.Laws.{is_later, ltb_ℤ-irrefl}

-- `strings.TrimPrefix(s, prefix)`: what stands behind the prefix, or the whole text.
unfoldable pub trim_prefix : List ℕ → List ℕ → List ℕ → List ℕ
trim_prefix whole [] s = s
trim_prefix whole (p ∷ ps) [] = whole
trim_prefix whole (p ∷ ps) (c ∷ cs) =
    let rest = trim_prefix whole ps cs in if c == p then rest else whole

unfoldable pub tag_version : List ℕ → Option Version
unfolding trim_prefix trim_v parse codes
tag_version ref = parse (trim_v (trim_prefix ref (codes "refs/tags/") ref))

abbrev pub add_version : Option Version → List Version → List Version
add_version none vs = vs
add_version (some v) vs = v ∷ vs

-- The loop over the refs; what is no version is skipped.
unfoldable pub versions_of : List (List ℕ) → List Version
unfolding tag_version
versions_of [] = []
versions_of (r ∷ rs) = add_version (tag_version r) (versions_of rs)

-- `sort.Slice`, the latest first.
abbrev pub insert_version : Version → List Version → List Version
insert_version v [] = v ∷ []
insert_version v (w ∷ ws) = if is_later w v then w ∷ insert_version v ws else v ∷ w ∷ ws

unfoldable pub sort_versions : List Version → List Version
sort_versions [] = []
sort_versions (v ∷ vs) = insert_version v (sort_versions vs)

unfoldable pub default_version : List ℕ
unfolding codes
default_version = codes "0.0.0"

abbrev pub print_first : List Version → List ℕ
print_first [] = default_version
print_first (v ∷ vs) = print v

unfoldable pub get_latest_tag : Result (List (List ℕ)) → Result (List ℕ)
unfolding versions_of sort_versions default_version contains
get_latest_tag (err e) =
    if contains e "404" then ok default_version else err ("fetching tags: " ++ e)
get_latest_tag (ok refs) = ok (print_first (sort_versions (versions_of refs)))

ltb_ℤ-trans : (a b c : ℤ) → ltb_ℤ b a ≡ false → ltb_ℤ c b ≡ false → ltb_ℤ c a ≡ false
ltb_ℤ-trans (pos a) (pos b) (pos c) h k = ground arith
ltb_ℤ-trans (pos a) (pos b) (negsuc c) h k = cc
ltb_ℤ-trans (pos a) (negsuc b) c h k = cc
ltb_ℤ-trans (negsuc a) (pos b) (pos c) h k = refl
ltb_ℤ-trans (negsuc a) (pos b) (negsuc c) h k = cc
ltb_ℤ-trans (negsuc a) (negsuc b) (pos c) h k = refl
ltb_ℤ-trans (negsuc a) (negsuc b) (negsuc c) h k = ground arith

ltb_ℤ-asym : (a b : ℤ) → ltb_ℤ a b ≡ true → ltb_ℤ b a ≡ false
ltb_ℤ-asym (pos a) (pos b) h = ground arith
ltb_ℤ-asym (pos a) (negsuc b) h = cc
ltb_ℤ-asym (negsuc a) (pos b) h = refl
ltb_ℤ-asym (negsuc a) (negsuc b) h = ground arith

is_later_asym : (v w : Version) → is_later v w ≡ true → is_later w v ≡ false
is_later_asym v w h = ground (
  arith,
  ltb_ℤ-asym w.major v.major,
  ltb_ℤ-asym v.major w.major,
  ltb_ℤ-asym w.minor v.minor,
  ltb_ℤ-asym v.minor w.minor,
  ltb_ℤ-asym w.patch v.patch,
)

is_later_trans :
    (u v w : Version) → is_later v u ≡ false → is_later w v ≡ false → is_later w u ≡ false
is_later_trans u v w h k = ground (
  arith,
  ltb_ℤ-trans w.major v.major u.major,
  ltb_ℤ-trans v.major u.major w.major,
  ltb_ℤ-trans u.major w.major v.major,
  ltb_ℤ-trans w.minor v.minor u.minor,
  ltb_ℤ-trans v.minor u.minor w.minor,
  ltb_ℤ-trans u.minor w.minor v.minor,
  ltb_ℤ-trans w.patch v.patch u.patch,
)

-- No version of the list is later than `v`.
abbrev pub IsLatest : Version → List Version → Type 0
IsLatest v = All (λ w. is_later w v ≡ false)

-- `v` is one of the list.
pub data Among (v : Version) : List Version → Type 0 where
  first : (ws : List Version) → Among v (v ∷ ws)
  behind : (w : Version) {ws : List Version} → Among v ws → Among v (w ∷ ws)

abbrev pub Heads : List Version → List Version → Type 0
Heads [] vs = vs ≡ []
Heads (v ∷ rest) vs = Among v vs × IsLatest v vs

IsLatest-trans :
    (u v : Version) (ws : List Version) → is_later v u ≡ false → IsLatest v ws → IsLatest u ws
IsLatest-trans u v [] h k = tt
IsLatest-trans u v (w ∷ ws) h k = (is_later_trans u v w h k.0, IsLatest-trans u v ws h k.1)

is_later_irrefl : (v : Version) → is_later v v ≡ false
is_later_irrefl v = rw (ltb_ℤ-irrefl v.major, ltb_ℤ-irrefl v.minor, ltb_ℤ-irrefl v.patch)

Heads-insert :
    (v : Version) (sorted vs : List Version)
    → Heads sorted vs
    → Heads (insert_version v sorted) (v ∷ vs)
Heads-insert v [] vs h = rw h (first [], (is_later_irrefl v, tt))
Heads-insert v (w ∷ ws) vs (a, l) =
    if-split (λ s. Heads s (v ∷ vs)) (is_later w v) (λ e. (behind v a, (is_later_asym w v e, l)))
      (λ e. (first vs, (is_later_irrefl v, IsLatest-trans v w vs e l)))

Heads-sort : (vs : List Version) → Heads (sort_versions vs) vs
unfolding sort_versions
Heads-sort [] = refl
Heads-sort (v ∷ vs) = Heads-insert v (sort_versions vs) vs (Heads-sort vs)

-- The tag that is answered for the refs: the default where none of them is a version, and else the
-- print of a version of the refs that no other one is later than.
pub get_latest_tag-IsLatest :
    (refs : List (List ℕ))
    → ((versions_of refs ≡ []) × (get_latest_tag (ok refs) ≡ ok default_version))
      ⊎ ((v : Version) × (get_latest_tag (ok refs) ≡ ok (print v))
          × Among v (versions_of refs)
          × IsLatest v (versions_of refs))
unfolding get_latest_tag
get_latest_tag-IsLatest refs =
    by_first (sort_versions (versions_of refs)) (Heads-sort (versions_of refs))
  where
    by_first :
        (sorted : List Version)
        → Heads sorted (versions_of refs)
        → ((versions_of refs ≡ [])
            × (◌≡◌ {A = Result (List ℕ)} (ok (print_first sorted)) (ok default_version)))
          ⊎ ((v : Version) × (◌≡◌ {A = Result (List ℕ)} (ok (print_first sorted)) (ok (print v)))
              × Among v (versions_of refs)
              × IsLatest v (versions_of refs))
    by_first [] h = inl (h, refl)
    by_first (v ∷ vs) (a, l) = inr (v, refl, a, l)
