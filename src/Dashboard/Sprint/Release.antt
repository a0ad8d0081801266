-- ===== src/Dashboard/Sprint/Release.antt =====
-- No milestone is closed without a tag.
use one_dev_army.Common.{
  ℕ, ◌≡◌, refl, sym, subst, ◌⊎◌, inl, inr, Option, none, some, List, ◌∷◌, String, if-intro,
}
use one_dev_army.Common.Effect.{Result, ok, err, Effect}
use one_dev_army.Common.Text.{codes}
use one_dev_army.Version.Tags.{default_version}
use one_dev_army.Dashboard.Sprint.{
  Milestone, Releases, Sprints, CloseRequest, CloseResult, Answer, Faults, is_bump_type,
  calculate_new_version, release_text, close_and_open, tag_and_close, release,
  handle_sprint_close_confirm_v2, handle_sprint_close_confirm,
}
use one_dev_army.Dashboard.Sprint

-- What a call keeps of the tags that are there and of the milestones that are open.
abbrev pub KeepsTags : {W A : Type 0} → (List ℕ → W → Type 0) → Effect W A → Type 0
KeepsTags {W} Tagged m = (t : List ℕ) (w : W) → Tagged t w → Tagged t (m w).1

abbrev pub KeepsOpen : {W A : Type 0} → (ℕ → W → Type 0) → Effect W A → Type 0
KeepsOpen {W} Open m = (n : ℕ) (w : W) → Open n w → Open n (m w).1

-- Only `CloseMilestone` closes a milestone, no call removes a tag, and `CreateTag` makes one where it
-- succeeds.
pub record IsRegistry {W : Type 0} (c : Releases W) (Tagged : List ℕ → W → Type 0)
    (Open : ℕ → W → Type 0) : Type 0 where
  pub latest : KeepsOpen Open c.get_latest_tag
  pub exists : (t : List ℕ) → KeepsOpen Open (c.tag_exists t)
  pub branch : KeepsOpen Open c.get_default_branch
  pub tag : (t b s : List ℕ) → KeepsOpen Open (c.create_tag t b s)
  pub made :
      (t b s : List ℕ) (w : W)
      → (c.create_tag t b s w).0 ≡ ok tt
      → Tagged t (c.create_tag t b s w).1
  pub released : (t a b : List ℕ) → KeepsTags Tagged (c.create_release t a b)
  pub milestone : (n : ℕ) → KeepsTags Tagged (c.close_milestone n)
  pub sprint : (t : List ℕ) → KeepsTags Tagged (c.create_next_sprint t)
  pub oldest : KeepsTags Tagged c.oldest_milestone

module _ {W : Type 0} (c : Releases W) (Tagged : List ℕ → W → Type 0) (Open : ℕ → W → Type 0)
    (v : IsRegistry c Tagged Open) where
  reloaded-Tagged :
      (t : List ℕ) (r : CloseResult) (q : Result (Option Milestone) × Sprints W)
      → Tagged t q.1.remote
      → Tagged t (Sprint.reloaded c r q).1.remote
  reloaded-Tagged t r (ok (some m), s) h = h
  reloaded-Tagged t r (ok none, s) h = h
  reloaded-Tagged t r (err e, s) h = h

  next_sprint-Tagged :
      (t : List ℕ) (r : CloseResult) (q : Result (List ℕ) × Sprints W)
      → Tagged t q.1.remote
      → Tagged t (Sprint.next_sprint c r q).1.remote
  next_sprint-Tagged t r (ok title, s) h =
      reloaded-Tagged t _ (Sprint.ask c c.oldest_milestone s) (v.oldest t s.remote h)
  next_sprint-Tagged t r (err e, s) h = h

  close_and_open-Tagged :
      (t : List ℕ) (f : Faults) (r : CloseResult) (m : Milestone) (s : Sprints W)
      → Tagged t s.remote
      → Tagged t (close_and_open c f r m s).1.remote
  unfolding close_and_open
  close_and_open-Tagged t f r m s h =
      go (Sprint.ask c (c.close_milestone m.number) s) (v.milestone m.number t s.remote h)
    where
      go :
          (q : Result (Unit {0}) × Sprints W)
          → Tagged t q.1.remote
          → Tagged t
              (Sprint.need c f.not_closed
                (λ _ s'. Sprint.next_sprint c r (Sprint.ask c (c.create_next_sprint m.title) s'))
                q).1.remote
      go (ok u, s1) k =
          next_sprint-Tagged t r (Sprint.ask c (c.create_next_sprint m.title) s1)
            (v.sprint m.title t s1.remote k)
      go (err e, s1) k = k

  need-intro :
      {A : Type 0} (P : Answer × Sprints W → Type 0) (fault : String → Answer)
      (k : A → Sprints W → Answer × Sprints W) (q : Result A × Sprints W)
      → ((a : A) → q.0 ≡ ok a → P (k a q.1))
      → ((e : String) → P (fault e, q.1))
      → P (Sprint.need c fault k q)
  need-intro P fault k (ok a, s) h g = h a refl
  need-intro P fault k (err e, s) h g = g e

  -- The milestone is open, or the tag of the release is there.
  abbrev Safe : List ℕ → Milestone → Answer × Sprints W → Type 0
  Safe t m r = Open m.number r.1.remote ⊎ Tagged t r.1.remote

  tag_and_close-Safe :
      (f : Faults) (body : CloseRequest) (t : List ℕ) (m : Milestone) (s : Sprints W)
      → Open m.number s.remote
      → Safe t m (tag_and_close c f body t m s)
  unfolding tag_and_close
  tag_and_close-Safe f body t m s h =
      let branch = Sprint.ask c c.get_default_branch s in
      let name = Sprint.value_or c (codes "main") branch.0 in
      let text = release_text t m.title in
      let w = branch.1.remote in
      let opened = v.branch m.number s.remote h in
      need-intro (Safe t m) f.no_tag _ (Sprint.ask c (c.create_tag t name text) branch.1)
        (λ u e. inr (
          close_and_open-Tagged t f _ m _
            (v.released t _ _ t (c.create_tag t name text w).1 (v.made t name text w e))))
        (λ e. inl (v.tag t name text m.number w opened))

  release-Safe :
      (f : Faults) (body : CloseRequest) (current : List ℕ) (m : Milestone) (s : Sprints W)
      → Open m.number s.remote
      → Safe (118 ∷ calculate_new_version current body.bump_type) m (release c f body current m s)
  unfolding release
  release-Safe f body current m s h =
      let t = 118 ∷ calculate_new_version current body.bump_type in
      let opened = v.exists t m.number s.remote h in
      need-intro (Safe t m) f.not_checked _ (Sprint.ask c (c.tag_exists t) s)
        (λ there e.
          if-intro (Safe t m) there (inl opened)
            (tag_and_close-Safe f body t m (Sprint.ask c (c.tag_exists t) s).1 opened))
        (λ e. inl opened)

  module _ (body : CloseRequest) (m : Milestone) (s : Sprints W) (active : s.active ≡ some m)
      (opened : Open m.number s.remote) where
    abbrev IsTagged : List ℕ → Answer × Sprints W → Type 0
    IsTagged current = Safe (118 ∷ calculate_new_version current body.bump_type) m

    guarded :
        (P : Answer × Sprints W → Type 0) (k : Milestone → Sprints W → Answer × Sprints W)
        → ((a : Answer) → P (a, s))
        → P (k m s)
        → P (Sprint.when_idle c (λ s1. Sprint.with_milestone c s1.active k s1) s)
    guarded P k h g =
        if-intro P s.processing (h _)
          (subst (λ o. P (Sprint.with_milestone c o k s)) (sym active) g)

    -- The version that the API counts from: the latest tag, or the default one on an error.
    abbrev pub latest_version : List ℕ
    latest_version = Sprint.value_or c default_version (c.get_latest_tag s.remote).0

    -- Let only `CloseMilestone` close a milestone, no call remove a tag, and `CreateTag` make one. From an
    -- open active milestone: when a closing by the API, or by the page, is over, the milestone is still
    -- open, or there is the tag of the new version: the one behind the latest tag of the repository (or
    -- behind the default version, where the query fails) for the API, and the one behind the version of
    -- the form for the page.
    pub close_confirm-Tagged :
        (current : List ℕ)
        → (let r = handle_sprint_close_confirm_v2 c (some body) s in
            Open m.number r.1.remote
            ⊎ Tagged (118 ∷ calculate_new_version latest_version body.bump_type) r.1.remote)
          × (let r = handle_sprint_close_confirm c current body s in
              Open m.number r.1.remote
              ⊎ Tagged (118 ∷ calculate_new_version current body.bump_type) r.1.remote)
    unfolding handle_sprint_close_confirm_v2 handle_sprint_close_confirm
    close_confirm-Tagged current =
        let asked = Sprint.ask c c.get_latest_tag s in
        (
          guarded (IsTagged latest_version) _ (λ a. inl opened)
              (if-intro (IsTagged latest_version) (is_bump_type body.bump_type)
                (release-Safe (Sprint.api_faults c) body latest_version m asked.1
                  (v.latest m.number s.remote opened))
                (inl opened)),
          guarded (IsTagged current) _ (λ a. inl opened)
              (if-intro (IsTagged current) (is_bump_type body.bump_type)
                (release-Safe (Sprint.page_faults c) body current m s opened) (inl opened)),
        )
