-- ===== src/Examples/OfSprint.antt =====
-- The closing of a sprint on a concrete registry of tags and milestones.
use one_dev_army.Common.{ℕ, ◌≡◌, ◌⊎◌, refl, Bool, true, false, some, List, [], ◌∷◌}
use one_dev_army.Common.Text.{codes}
use one_dev_army.Common.Int.{pos}
use one_dev_army.Common.Effect.{ok, err}
use one_dev_army.Version.{Version, print}
use one_dev_army.Dashboard.Sprint.{
  Milestone, Releases, Sprints, CloseRequest, calculate_new_version, handle_sprint_close_confirm_v2,
  handle_sprint_close_confirm,
}
use one_dev_army.Dashboard.Sprint.Release.{IsRegistry, close_confirm-Tagged}

abbrev release_version : Version
release_version = record { major = pos 1; minor = pos 9; patch = pos 4 }

-- The tags that are there, and whether the milestone is open.
abbrev Registry : Type 0
Registry = List (List ℕ) × Bool

abbrev next_milestone : Milestone
next_milestone = record { number = 4; title = codes "Sprint 4" }

abbrev registry : Releases Registry
registry = record {
  get_latest_tag = λ w. (ok (print release_version), w);
  tag_exists = λ t w. (ok false, w);
  get_default_branch = λ w. (err "no branch", w);
  create_tag = λ t b s w. (ok tt, (t ∷ w.0, w.1));
  create_release = λ t a b w. (err "no release", w);
  close_milestone = λ n w. (ok tt, (w.0, false));
  create_next_sprint = λ t w. (ok (codes "Sprint 4"), w);
  oldest_milestone = λ w. (ok (some next_milestone), w);
}

data Has (t : List ℕ) : List (List ℕ) → Type 0 where
  at_first : (ts : List (List ℕ)) → Has t (t ∷ ts)
  further : (u : List ℕ) {ts : List (List ℕ)} → Has t ts → Has t (u ∷ ts)

abbrev HasTag : List ℕ → Registry → Type 0
HasTag t w = Has t w.0

abbrev IsOpen : ℕ → Registry → Type 0
IsOpen n w = w.1 ≡ true

registry-IsRegistry : IsRegistry registry HasTag IsOpen
registry-IsRegistry = record {
  latest = λ n w h. h;
  exists = λ t n w h. h;
  branch = λ n w h. h;
  tag = λ t b s n w h. h;
  made = λ t b s w e. at_first w.0;
  released = λ t a b u w h. h;
  milestone = λ n t w h. h;
  sprint = λ t u w h. h;
  oldest = λ t w h. h;
}

abbrev closing : CloseRequest
closing = record { bump_type = "minor"; release_title = []; release_body = [] }

abbrev old_milestone : Milestone
old_milestone = record { number = 3; title = codes "Sprint 3" }

abbrev sprint : Sprints Registry
sprint = record {
  processing = false;
  active = some old_milestone;
  has_sync = true;
  sync_milestone = codes "Sprint 3";
  remote = ([], true);
}

close_confirm-Tagged_example :
    (IsOpen 3 (handle_sprint_close_confirm_v2 registry (some closing) sprint).1.remote
      ⊎ HasTag
          (118 ∷ calculate_new_version (print release_version) "minor")
          (handle_sprint_close_confirm_v2 registry (some closing) sprint).1.remote)
    × (IsOpen 3 (handle_sprint_close_confirm registry (codes "1.9.4") closing sprint).1.remote
        ⊎ HasTag
            (118 ∷ calculate_new_version (codes "1.9.4") "minor")
            (handle_sprint_close_confirm registry (codes "1.9.4") closing sprint).1.remote)
close_confirm-Tagged_example =
    close_confirm-Tagged registry HasTag IsOpen registry-IsRegistry closing old_milestone sprint
      refl refl (codes "1.9.4")
