-- ===== src/Workers/Processor/Approval.antt =====
-- A pull request is opened only behind an approval of the model's review.
use Prim.Native.String.{◌++◌}
use one_dev_army.Common.{
  ℕ, ◌+◌, ◌*◌, ◌||◌, leb, ◌≤◌, ◌≡◌, refl, ◌∙◌, true, false, String, ◌⊎◌, inl, inr, arith, if-split,
  if-intro,
}
use one_dev_army.Common.Effect.{Result, ok, err, Effect, try, ignore, pure}
use one_dev_army.GitHub.Reason.{worker_needs_user, worker_blocked}
use one_dev_army.Pipeline.Stage.{Stage, code_review, queued, done, same, rank, next, retry_target}
use one_dev_army.Pipeline.Run
use one_dev_army.Pipeline.Run.{
  StageResult, Reply, Answer, finished, failure, running, Loop, Round, return, continue,
}
use one_dev_army.Pipeline.Outcome.{After, loop-rule, rank-retry_target}
use one_dev_army.Mvp.Worker.Texts.{itoa}
use one_dev_army.Workers.Texts.{branch_name}
use one_dev_army.Workers.{Task}
use one_dev_army.Workers.Processor.{
  Tools, Part, Prompt, StageMetric, is_approved, extract_full_content,
}
use one_dev_army.Workers.Processor
use one_dev_army.Workers.Processor.Watched.{
  Keeps, IsWatched, Sees, execute-Keeps, execute-Sees, ignore-Keeps, change-Keeps, pure-Keeps,
}

review_or_before : (s : Stage) → rank s ≤ 3 → (rank s ≤ 2) ⊎ (s ≡ code_review)
review_or_before queued h = inl (omega arith)
review_or_before Stage.analysis h = inl (omega arith)
review_or_before Stage.coding h = inl (omega arith)
review_or_before code_review h = inr refl
review_or_before s h = absurd (omega arith)

climbs :
    (s : Stage)
    → rank s ≤ 2
    → (rank (next s) ≤ 3)
      × ((same (next s) s || same s done) ≡ false)
      × (same (next s) done ≡ false)
unfolding next
climbs queued h = (omega arith, refl, refl)
climbs Stage.analysis h = (omega arith, refl, refl)
climbs Stage.coding h = (omega arith, refl, refl)
climbs s h = absurd (omega arith)

module _ {W : Type 0} (t : Tools W) (task : Task) (Approved : W → Type 0) (prs : W → ℕ)
    (v : IsWatched t Approved prs) (n : ℕ) where
  -- Up to the review nothing has been approved; behind it something has.
  abbrev Runs : Loop W → Type 0
  Runs l = ((rank l.stage ≤ 3) ⊎ Approved l.world) × (prs l.world ≡ n)

  abbrev Answers : Answer → Loop W → Type 0
  Answers (finished r) l = (prs l.world ≡ n) × (r.stage ≡ done → Approved l.world)
  Answers (failure s e) l = prs l.world ≡ n
  Answers running l = prs l.world ≡ n

  abbrev m : ℕ
  m = t.max_retries

  advance-Answers :
      (r : StageResult) (l : Loop W)
      → (rank l.stage ≤ 2) ⊎ Approved l.world
      → prs l.world ≡ n
      → After Runs Answers (Run.advance (Processor.executor t task) m task.id r l)
  advance-Answers r l (inl low) e =
      let (up, moves, open_end) = climbs l.stage low in rw (moves, open_end) (inl up, e)
  advance-Answers r l (inr a) e =
      if-intro (After Runs Answers) (same (next l.stage) l.stage || same l.stage done) (e, λ _. a)
        (if-intro (After Runs Answers) (same (next l.stage) done) (e, λ _. a) (inr a, e))

  retry-Answers :
      (r : StageResult) (l : Loop W)
      → (rank l.stage ≤ 3) ⊎ Approved l.world
      → prs l.world ≡ n
      → After Runs Answers (Run.retry (Processor.executor t task) m task.id r l)
  retry-Answers r l low e =
      if-intro (After Runs Answers) (leb m (l.retries + 1)) (e, λ q. cc) (fall low, e)
    where
      fall :
          (rank l.stage ≤ 3) ⊎ Approved l.world
          → (rank (retry_target l.stage) ≤ 3) ⊎ Approved l.world
      fall (inl h) = inl (omega (arith, rank-retry_target l.stage))
      fall (inr a) = inr a

  respond-Answers :
      (l : Loop W) (r : Result StageResult × W)
      → Runs l
      → (prs r.1 ≡ prs l.world) × (Approved l.world → Approved r.1)
      → (l.stage ≡ code_review → Sees t task Approved prs v r)
      → After Runs Answers
          (Run.respond (Processor.executor t task) m task.id l (Processor.reply t task r))
  respond-Answers l (err x, w) (b, e) (k, a) see = k ∙ e
  respond-Answers l (ok r, w) (b, e) (k, a) see =
      let l1 = record (Run.notify (Processor.executor t task) m task.id l) { world = w } in
      if-split (After Runs Answers) r.success
        (λ good. advance-Answers r l1 (settled good b) (k ∙ e))
        (λ bad. retry-Answers r l1 (kept b) (k ∙ e))
    where
      kept : (rank l.stage ≤ 3) ⊎ Approved l.world → (rank l.stage ≤ 3) ⊎ Approved w
      kept (inl h) = inl h
      kept (inr q) = inr (a q)

      reviewed :
          r.success ≡ true
          → (rank l.stage ≤ 2) ⊎ (l.stage ≡ code_review)
          → (rank l.stage ≤ 2) ⊎ Approved w
      reviewed good (inl h) = inl h
      reviewed good (inr q) = inr (see q good)

      settled :
          r.success ≡ true → (rank l.stage ≤ 3) ⊎ Approved l.world → (rank l.stage ≤ 2) ⊎ Approved w
      settled good (inl h) = reviewed good (review_or_before l.stage h)
      settled good (inr q) = inr (a q)

  round-Answers :
      (l : Loop W) → Runs l → After Runs Answers (Run.round (Processor.executor t task) m task.id l)
  unfolding Run.round
  round-Answers l h =
      respond-Answers l (Processor.execute t task task.id l.stage l.context l.world) h
        (execute-Keeps t task Approved prs v task.id l.stage l.context l.world)
        (execute-Sees t task Approved prs v task.id l.stage l.context l.world)

  run_pipeline-Answers :
      (s : Stage) (w : W)
      → rank (Processor.start_stage t task s) ≤ 3
      → prs w ≡ n
      → let end = Processor.run_pipeline t task s w in Answers end.0 end.1
  unfolding Processor.run_pipeline Run.run
  run_pipeline-Answers s w h e =
      loop-rule (Processor.executor t task) m task.id Runs Answers round-Answers (λ l k. k.1)
        (100 * (m + 1)) _ (inl h, e)

  abbrev Unopened : W → Type 0
  Unopened w = (prs w ≡ n) ⊎ Approved w

  finish-Approved :
      (branch : String) (w : W) → Approved w → Approved (Processor.finish t task branch w).1
  unfolding Processor.finish try
  finish-Approved branch w a = go (t.create_pr branch _ _ w) (v.pull branch _ _ w a)
    where
      rest : Effect W (Unit {0})
      rest =
          ignore (Processor.change_with t task t.change_stage worker_needs_user)
            (ignore (t.remove_branch branch) (pure tt))

      go :
          (r : Result String × W)
          → Approved r.1
          → Approved
              (try
                (λ e. "creating PR for task #" ++ itoa task.issue_number ++ ": " ++ e)
                (λ _. r)
                (λ _. rest)
                w).1
      go (ok u, w') q =
          (ignore-Keeps t task Approved prs v
              (Processor.change_with t task t.change_stage worker_needs_user)
              (ignore (t.remove_branch branch) (pure tt))
              (change-Keeps t task Approved prs v t.change_stage worker_needs_user v.change)
              (ignore-Keeps t task Approved prs v (t.remove_branch branch) (pure tt)
                (v.removal branch) (pure-Keeps t task Approved prs v tt))
              w').1
            q
      go (err e, w') q = q

  block-Keeps : (output : String) → Keeps Approved prs (Processor.block t task output)
  unfolding Processor.block
  block-Keeps output =
      ignore-Keeps t task Approved prs v _ _
        (change-Keeps t task Approved prs v t.change_stage worker_blocked v.change)
        (ignore-Keeps t task Approved prs v _ _ (v.comment task.issue_number _)
          (pure-Keeps t task Approved prs v tt))

  carry_out-Unopened :
      (branch : String) (s : Stage) (output : String) (w : W)
      → prs w ≡ n
      → (s ≡ done → Approved w)
      → Unopened (Processor.carry_out t task branch s output w).1
  carry_out-Unopened branch done output w e a = inr (finish-Approved branch w (a refl))
  carry_out-Unopened branch Stage.blocked output w e a = inl ((block-Keeps output w).0 ∙ e)
  carry_out-Unopened branch s output w e a = inl e

  settle-Unopened :
      (branch : String) (a : Answer) (l : Loop W)
      → Answers a l
      → Unopened (Processor.settle t task branch a l.world).1
  settle-Unopened branch (finished r) l (e, a) =
      carry_out-Unopened branch r.stage r.output l.world e a
  settle-Unopened branch (failure s x) l e = inl e
  settle-Unopened branch running l e = inl e

module _ {W : Type 0} (t : Tools W) (task : Task) (Approved : W → Type 0) (prs : W → ℕ)
    (v : IsWatched t Approved prs) where
  -- Let only `CreatePR` change the number of pull requests, and let nothing take back what an
  -- answer of the model that says `"approved": true` has approved. From a task that is new, queued,
  -- or at a stage up to the review: when `Process` is over, there is no new pull request, or a
  -- review was approved.
  pub process-Approved :
      (s : Stage) (w : W)
      → rank (Processor.start_stage t task s) ≤ 3
      → (prs (Processor.process t task s w).1 ≡ prs w) ⊎ Approved (Processor.process t task s w).1
  unfolding Processor.process try
  process-Approved s w low = go (t.create_branch branch w) (v.branch branch w).0
    where
      branch : String
      branch = branch_name task.issue_number task.title

      go :
          (r : Result (Unit {0}) × W)
          → prs r.1 ≡ prs w
          → Unopened t task Approved prs v
              (prs w)
              (try
                (λ e. "creating branch for task #" ++ itoa task.issue_number ++ ": " ++ e)
                (λ _. r)
                (λ _ w'.
                  let (a, l) = Processor.run_pipeline t task s w' in
                  Processor.settle t task branch a l.world)
                w).1
      go (ok u, w') e =
          settle-Unopened t task Approved prs v (prs w) branch
            (Processor.run_pipeline t task s w').0 (Processor.run_pipeline t task s w').1
            (run_pipeline-Answers t task Approved prs v (prs w) s w' low e)
      go (err x, w') e = inl e
