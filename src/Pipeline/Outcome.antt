-- ===== src/Pipeline/Outcome.antt =====
-- What `Pipeline.Run` has done when it returns.
use one_dev_army.Common.{
  ℕ, zero, suc, ◌+◌, ◌≤◌, ◌<◌, ◌≡◌, refl, Bool, true, false, ◌||◌, List, [], ◌∷◌, ◌++◌, ◌⊎◌, inl,
  inr, leb, String, if-intro, if-split, arith, any,
}
use one_dev_army.Pipeline.Stage.{Stage, queued, done, blocked, same, rank, next, retry_target}
use one_dev_army.Pipeline.Run.{
  Reply, ok, error, Answer, finished, failure, running, Loop, Round, return, continue, unset,
  StageResult,
}
use one_dev_army.Pipeline.Run

any-append : (p : Stage → Bool) (xs ys : List Stage) → any p (xs ++ ys) ≡ (any p xs || any p ys)
any-append p [] ys = refl
any-append p (x ∷ xs) ys = ground (arith, any-append p xs ys)

same_of_rank : (x s : Stage) → rank x ≡ rank s → rank s < 9 → same x s ≡ true
same_of_rank x s e h = ground arith

pub rank-next : (s : Stage) → rank s < 8 → rank (next s) ≡ rank s + 1
unfolding next
rank-next queued h = omega arith
rank-next s h = omega arith

pub rank-retry_target : (s : Stage) → rank s < 8 → rank (retry_target s) ≤ rank s
unfolding retry_target
rank-retry_target queued h = omega arith
rank-retry_target s h = omega arith

-- Every stage from place `lo` up to, and without, place `hi` is in the list.
abbrev pub Visited : ℕ → ℕ → List Stage → Type 0
Visited lo hi seen = (x : Stage) → lo ≤ rank x → rank x < hi → any (same x) seen ≡ true

Visited-push :
    (lo : ℕ) (s : Stage) (seen : List Stage)
    → rank s < 9
    → Visited lo (rank s) seen
    → Visited lo (rank s + 1) (seen ++ s ∷ [])
Visited-push lo s seen h v x p q =
    ground (arith, any-append (same x) seen (s ∷ []), v x p, same_of_rank x s)

Visited-mono :
    (lo hi hi' : ℕ) (seen : List Stage) → hi' ≤ hi → Visited lo hi seen → Visited lo hi' seen
Visited-mono lo hi hi' seen h v x p q = v x p (omega arith)

advance_moves : (s : Stage) → rank s < 8 → (same (next s) s || same s done) ≡ false
unfolding next
advance_moves queued h = refl
advance_moves s h = ground arith

pub rank_of_same-done : (s : Stage) → same s done ≡ true → rank s ≡ 8
rank_of_same-done s h = ground arith

pub rank_of_not_same-done : (s : Stage) → rank s < 9 → same s done ≡ false → rank s < 8
rank_of_not_same-done s h k = ground arith

module _ {W : Type 0} where
  -- A round returned an answer for which `Q` holds, or went on at a loop for which `P` holds.
  abbrev pub After : (Loop W → Type 0) → (Answer → Loop W → Type 0) → Round W → Type 0
  After P Q (return a l) = Q a l
  After P Q (continue l) = P l

  -- The loop stands at a stage before `done`, and has been at all stages from `lo` up to it.
  abbrev Climbs : ℕ → Loop W → Type 0
  Climbs lo l = (rank l.stage < 8) × Visited lo (rank l.stage) l.notified

  -- `Run` answers `done` after a visit of all stages from `lo` on, or `blocked` after too many
  -- failures.
  abbrev pub Ends : ℕ → ℕ → Answer → Loop W → Type 0
  Ends m lo (finished r) l =
      ((r.stage ≡ done) × Visited lo 9 l.notified) ⊎ ((r.stage ≡ blocked) × (m ≤ l.retries))
  Ends m lo _ l = Unit

  module _ (execute : ℕ → Stage → String → W → Reply × W) (m : ℕ) (task : ℕ) where
    pub loop-rule :
        (P : Loop W → Type 0) (Q : Answer → Loop W → Type 0)
        → ((l : Loop W) → P l → After P Q (Run.round execute m task l))
        → ((l : Loop W) → P l → Q running l)
        → (fuel : ℕ) (l : Loop W) → P l
        → Q (Run.loop execute m task fuel l).0 (Run.loop execute m task fuel l).1
    unfolding Run.loop
    loop-rule P Q step cut zero l h = cut l h
    loop-rule P Q step cut (suc fuel) l h =
        go (loop-rule P Q step cut fuel) (Run.round execute m task l) (step l h)
      where
        go :
            ((l1 : Loop W)
              → P l1
              → Q (Run.loop execute m task fuel l1).0 (Run.loop execute m task fuel l1).1)
            → (r : Round W) → After P Q r
            → let end = elim r as (λ _. Answer × Loop W) [
              | return a l1 ↦ (a, l1)
              | continue l1 ↦ Run.loop execute m task fuel l1
            ] in
              Q end.0 end.1
        go ih (return a l1) p = p
        go ih (continue l1) p = ih l1 p

    module _ (lo : ℕ) where
      advance-After :
          (r : StageResult) (l : Loop W)
          → rank l.stage < 8
          → Visited lo (rank l.stage + 1) l.notified
          → After (Climbs lo) (Ends m lo) (Run.advance execute m task r l)
      advance-After r l h v =
          let up = rank-next l.stage h in
          let seen = Visited-mono lo _ (rank (next l.stage)) l.notified (omega (arith, up)) v in
          rw (advance_moves l.stage h) (
            if-split (After (Climbs lo) (Ends m lo)) (same (next l.stage) done)
              (λ e. inl (
                refl,
                Visited-mono lo (rank (next l.stage) + 1) 9 _
                    (omega (arith, rank_of_same-done (next l.stage) e))
                    (Visited-push lo (next l.stage) l.notified (omega (arith, up)) seen),
              ))
              (λ e. (rank_of_not_same-done (next l.stage) (omega (arith, up)) e, seen)))

      retry-After :
          (r : StageResult) (l : Loop W)
          → rank l.stage < 8
          → Visited lo (rank l.stage + 1) l.notified
          → After (Climbs lo) (Ends m lo) (Run.retry execute m task r l)
      retry-After r l h v =
          let down = rank-retry_target l.stage h in
          if-split (After (Climbs lo) (Ends m lo)) (leb m (l.retries + 1))
            (λ e. inr (refl, ground arith))
            (λ e. (omega (arith, down), Visited-mono lo _ _ l.notified (omega (arith, down)) v))

      respond-After :
          (l : Loop W) (a : Reply × W)
          → Climbs lo l
          → After (Climbs lo) (Ends m lo) (Run.respond execute m task l a)
      respond-After l (ok r, w) (h, v) =
          let l1 = record (Run.notify execute m task l) { world = w } in
          let seen = Visited-push lo l.stage l.notified (omega arith) v in
          if-intro (After (Climbs lo) (Ends m lo)) r.success (advance-After r l1 h seen)
            (retry-After r l1 h seen)
      respond-After l (error e, w) c = tt

      round-After :
          (l : Loop W) → Climbs lo l → After (Climbs lo) (Ends m lo) (Run.round execute m task l)
      unfolding Run.round
      round-After l c = respond-After l (execute task l.stage l.context l.world) c

    -- From a stage before `done`: a run whose result is `done` has visited every stage from there to
    -- `done`, `merging` included, and one whose result is `blocked` has counted `maxRetries`
    -- failures; no other result is returned.
    pub run-Ends :
        (s : Stage) (fuel : ℕ) (context : String) (w : W)
        → rank s < 8
        → let end = Run.run execute m task fuel s context w in Ends m (rank s) end.0 end.1
    unfolding Run.run
    run-Ends s fuel context w h =
        loop-rule (Climbs (rank s)) (Ends m (rank s)) (round-After (rank s)) (λ l c. tt) fuel
          (Run.start execute m task s context w) (h, λ x p q. absurd (omega arith))
