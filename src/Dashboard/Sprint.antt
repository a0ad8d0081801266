-- ===== src/Dashboard/Sprint.antt =====
-- internal/dashboard/api_v2.go and handlers.go: the closing of a sprint, by the API, by the page and by
-- the old handler. Tags, titles and versions are code points. `Releases` holds the calls of the GitHub
-- client; `active` is its active milestone, `none` also where there is no client. The sync that is
-- asked for at the end is the one of Dashboard/Sync; the names in error messages are left out.
pub mod Numbers
pub mod Release
use Prim.Native.String.{◌++◌ as join}
use one_dev_army.Common.{
  ℕ, Bool, true, false, not, ◌&&◌, ◌||◌, Option, none, some, List, [], ◌∷◌, ◌++◌, String, str_eq,
  if◌then◌else◌, is_empty,
}
use one_dev_army.Common.Int.{pos}
use one_dev_army.Common.Text.{codes}
use one_dev_army.Common.Effect.{Result, ok, err, Effect}
use one_dev_army.Version.{Version, print, parse, bump_major, bump_minor, bump_patch}
use one_dev_army.Version.Tags.{default_version}

pub record Milestone : Type 0 where
  pub number : ℕ
  pub title : List ℕ

pub record Releases (W : Type 0) : Type 0 where
  pub get_latest_tag : Effect W (List ℕ)
  pub tag_exists : List ℕ → Effect W Bool
  pub get_default_branch : Effect W (List ℕ)
  pub create_tag : List ℕ → List ℕ → List ℕ → Effect W (Unit {0})
  pub create_release : List ℕ → List ℕ → List ℕ → Effect W (Unit {0})
  pub close_milestone : ℕ → Effect W (Unit {0})
  pub create_next_sprint : List ℕ → Effect W (List ℕ)
  pub oldest_milestone : Effect W (Option Milestone)

pub record Sprints (W : Type 0) : Type 0 where
  pub processing : Bool
  pub active : Option Milestone
  pub has_sync : Bool
  pub sync_milestone : List ℕ
  pub remote : W

pub record CloseRequest : Type 0 where
  pub bump_type : String
  pub release_title : List ℕ
  pub release_body : List ℕ

pub data Warning : Type 0 where
  no_warning not_created not_reloaded not_available : Warning

pub record CloseResult : Type 0 where
  pub tag_name : List ℕ
  pub release_title : List ℕ
  pub milestone_title : List ℕ
  pub new_sprint_title : List ℕ
  pub warning : Warning

-- `redirect` is the page's way back, with the error.
pub data Answer : Type 0 where
  closed : CloseResult → Answer
  bad_request conflict internal_error redirect : String → Answer
  to_board : Answer

abbrev pub is_bump_type : String → Bool
is_bump_type s = str_eq s "major" || str_eq s "minor" || str_eq s "patch"

abbrev pub zero_version : Version
zero_version = record { major = pos 0; minor = pos 0; patch = pos 0 }

abbrev pub parsed_or_zero : Option Version → Version
parsed_or_zero none = zero_version
parsed_or_zero (some v) = v

abbrev pub bumped : String → Version → Version
bumped bump v =
    if str_eq bump "major"
    then bump_major v
    else (if str_eq bump "minor" then bump_minor v else bump_patch v)

unfoldable pub calculate_new_version : List ℕ → String → List ℕ
unfolding parse print bump_major bump_minor bump_patch
calculate_new_version current bump = print (bumped bump (parsed_or_zero (parse current)))

-- `Release <tag> - <title>`
unfoldable pub release_text : List ℕ → List ℕ → List ℕ
unfolding codes
release_text tag title = codes "Release " ++ (tag ++ (codes " - " ++ title))

abbrev pub or_text : List ℕ → List ℕ → List ℕ
or_text s default_text = if is_empty s then default_text else s

-- What the two handlers answer to the errors of the steps.
pub record Faults : Type 0 where
  pub not_checked : String → Answer
  pub tag_there : Answer
  pub no_tag : String → Answer
  pub not_closed : String → Answer

module _ {W : Type 0} (c : Releases W) where
  abbrev pub Handler : Type 0
  Handler = Sprints W → Answer × Sprints W

  abbrev pub ask : {A : Type 0} → Effect W A → Sprints W → Result A × Sprints W
  ask m s = let (r, w) = m s.remote in (r, record s { remote = w })

  abbrev pub need :
      {A : Type 0} → (String → Answer) → (A → Handler) → Result A × Sprints W → Answer × Sprints W
  need fault k (ok a, s) = k a s
  need fault k (err e, s) = (fault e, s)

  abbrev pub value_or : {A : Type 0} → A → Result A → A
  value_or a (ok b) = b
  value_or a (err e) = a

  abbrev pub follow : Milestone → Sprints W → Sprints W
  follow m s = record s {
    active = some m;
    sync_milestone = if s.has_sync then m.title else s.sync_milestone;
  }

  abbrev pub reloaded : CloseResult → Result (Option Milestone) × Sprints W → Answer × Sprints W
  reloaded r (ok (some m), s) = (closed r, follow m s)
  reloaded r (ok none, s) = (closed (record r { warning = not_available }), s)
  reloaded r (err e, s) = (closed (record r { warning = not_reloaded }), s)

  abbrev pub next_sprint : CloseResult → Result (List ℕ) × Sprints W → Answer × Sprints W
  next_sprint r (ok title, s) =
      reloaded (record r { new_sprint_title = title }) (ask c.oldest_milestone s)
  next_sprint r (err e, s) = (closed (record r { warning = not_created }), s)

  abbrev pub result_of : List ℕ → List ℕ → Milestone → CloseResult
  result_of tag title m = record {
    tag_name = tag;
    release_title = title;
    milestone_title = m.title;
    new_sprint_title = [];
    warning = no_warning;
  }

  -- From the closing of the milestone on.
  unfoldable pub close_and_open : Faults → CloseResult → Milestone → Handler
  close_and_open f r m s =
      need f.not_closed (λ _ s'. next_sprint r (ask (c.create_next_sprint m.title) s'))
        (ask (c.close_milestone m.number) s)

  -- From the tag on. The error of the release is logged.
  unfoldable pub tag_and_close : Faults → CloseRequest → List ℕ → Milestone → Handler
  unfolding release_text close_and_open
  tag_and_close f body tag m s =
      let (branch, s1) = ask c.get_default_branch s in
      let text = release_text tag m.title in
      let title = or_text body.release_title text in
      let notes = or_text body.release_body (codes "Release " ++ tag) in
      need f.no_tag
        (λ _ s2.
          close_and_open f (result_of tag title m) m (ask (c.create_release tag title notes) s2).1)
        (ask (c.create_tag tag (value_or (codes "main") branch) text) s1)

  -- From the check of the tag on.
  unfoldable pub release : Faults → CloseRequest → List ℕ → Milestone → Handler
  unfolding tag_and_close calculate_new_version
  release f body current m s =
      let tag = 118 ∷ calculate_new_version current body.bump_type in
      need f.not_checked
        (λ there s1. if there then (f.tag_there, s1) else tag_and_close f body tag m s1)
        (ask (c.tag_exists tag) s)

  abbrev pub with_milestone : Option Milestone → (Milestone → Handler) → Handler
  with_milestone none k s = (bad_request "no active milestone", s)
  with_milestone (some m) k s = k m s

  abbrev pub when_idle : Handler → Handler
  when_idle k s =
      if s.processing then (conflict "cannot close sprint while processing tasks", s) else k s

  abbrev pub api_faults : Faults
  api_faults = record {
    not_checked = λ e. internal_error (join "failed to check tag existence: " e);
    tag_there = conflict "tag already exists";
    no_tag = λ e. internal_error (join "failed to create tag: " e);
    not_closed = λ e. internal_error (join "failed to close milestone: " e);
  }

  abbrev pub page_faults : Faults
  page_faults = record {
    not_checked = λ e. redirect "Failed to check tag existence";
    tag_there = redirect "Tag already exists";
    no_tag = λ e. redirect "Failed to create tag";
    not_closed = λ e. redirect "Failed to close milestone";
  }

  -- `none` is a body that is not JSON.
  unfoldable pub handle_sprint_close_confirm_v2 : Option CloseRequest → Handler
  unfolding release default_version
  handle_sprint_close_confirm_v2 none s = (bad_request "invalid JSON body", s)
  handle_sprint_close_confirm_v2 (some body) s =
      when_idle
        (λ s1.
          with_milestone s1.active
            (λ m s2.
              let (latest, s3) = ask c.get_latest_tag s2 in
              if is_bump_type body.bump_type
              then release api_faults body (value_or default_version latest) m s3
              else (bad_request "invalid bump_type: must be major, minor, or patch", s2))
            s1)
        s

  -- The page sends the current version along.
  unfoldable pub handle_sprint_close_confirm : List ℕ → CloseRequest → Handler
  unfolding release
  handle_sprint_close_confirm current body = when_idle λ s1.
      with_milestone s1.active
        (λ m s2.
          if is_bump_type body.bump_type
          then release page_faults body current m s2
          else (redirect "Invalid bump type", s2))
        s1

  abbrev pub legacy_reloaded : Result (Option Milestone) × Sprints W → Answer × Sprints W
  legacy_reloaded (ok (some m), s) = (to_board, follow m s)
  legacy_reloaded (ok none, s) = (internal_error "no active sprint available after closing", s)
  legacy_reloaded (err e, s) = (internal_error (join "failed to reload milestones: " e), s)

  -- The old handler closes the milestone without a tag.
  unfoldable pub handle_sprint_close_legacy : Handler
  handle_sprint_close_legacy = when_idle λ s1.
      with_milestone s1.active
        (λ m s2.
          need (λ e. internal_error (join "failed to close milestone: " e))
            (λ _ s3.
              need (λ e. internal_error (join "failed to create next sprint: " e))
                (λ _ s4. legacy_reloaded (ask c.oldest_milestone s4))
                (ask (c.create_next_sprint m.title) s3))
            (ask (c.close_milestone m.number) s2))
        s1
