-- ===== src/Examples/OfTexts.antt =====
-- The versions, the answers of the model and the wizard's sessions on concrete inputs.
use one_dev_army.Common.{ℕ, ◌≡◌, ◌⊎◌, refl, false, ◌||◌, some, List, [], ◌∷◌, ◌++◌, arith}
use one_dev_army.Common.Text.{codes}
use one_dev_army.Common.Int.{pos}
use one_dev_army.Common.Effect.{ok}
use one_dev_army.Version.{Version, print, parse}
use one_dev_army.Version.Laws.{IsVersion, parse-print}
use one_dev_army.Version.Tags.{
  versions_of, default_version, get_latest_tag, Among, IsLatest, get_latest_tag-IsLatest,
}
use one_dev_army.Scheduler.{bracket, unbracket, brace, extract_json}
use one_dev_army.Scheduler.Brackets.{Balanced, nil, plain, nested, has, extract_json-array}
use one_dev_army.Dashboard.Wizard.Sessions.{
  Op, creating, deleting, perform_all, IsStore, perform_all-IsStore,
}

abbrev second : Version
second = record { major = pos 1; minor = pos 20; patch = pos 3 }

second-IsVersion : IsVersion second
second-IsVersion = (omega arith, omega arith, omega arith)

parse-print_example :
    (parse (print second) ≡ some second) × (parse (118 ∷ print second) ≡ some second)
parse-print_example = parse-print second second-IsVersion

abbrev refs : List (List ℕ)
refs = codes "refs/tags/v1.2.0" ∷ codes "refs/tags/nightly" ∷ codes "refs/tags/1.10.0" ∷ []

get_latest_tag-IsLatest_example :
    ((versions_of refs ≡ []) × (get_latest_tag (ok refs) ≡ ok default_version))
    ⊎ ((v : Version) × (get_latest_tag (ok refs) ≡ ok (print v))
        × Among v (versions_of refs)
        × IsLatest v (versions_of refs))
get_latest_tag-IsLatest_example = get_latest_tag-IsLatest refs

-- The text `1,[2]`.
abbrev inner : List ℕ
inner = 49 ∷ 44 ∷ bracket ∷ 50 ∷ unbracket ∷ []

inner-Balanced : Balanced bracket unbracket inner
inner-Balanced = plain 49 refl refl (plain 44 refl refl (nested (plain 50 refl refl nil) nil))

clean : (has bracket (codes "Plan: ") || has brace (codes "Plan: ")) ≡ false
unfolding codes
clean = refl

extract_json-array_example :
    extract_json (codes "Plan: " ++ bracket ∷ (inner ++ unbracket ∷ codes " ok?"))
    ≡ bracket ∷ (inner ++ unbracket ∷ [])
extract_json-array_example =
    extract_json-array (codes "Plan: ") inner (codes " ok?") clean inner-Balanced

abbrev visits : List Op
visits = creating "feature" "a" 3 ∷ creating "bug" "b" 4 ∷ deleting "a" ∷ []

nothing-IsStore : IsStore []
nothing-IsStore = record { few = omega arith; distinct = tt }

perform_all-IsStore_example : IsStore (perform_all visits [])
perform_all-IsStore_example = perform_all-IsStore visits [] nothing-IsStore
