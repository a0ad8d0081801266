-- ===== src/Pipeline/Termination.antt =====
-- `Pipeline.Run` ends, whatever the executor answers. Between two resets of the retry counter the
-- failed stage stays the same, and each reset moves past it, so the loop has a falling measure.
use one_dev_army.Common.{
  ℕ, zero, suc, ◌+◌, ◌-◌, ◌*◌, ◌<◌, ◌≡◌, ◌≢◌, false, not, ◌&&◌, String, if◌then◌else◌, leb, arith,
  eq_refl, if-intro,
}
use one_dev_army.Pipeline.Stage.{Stage, queued, done, other, same, rank, next, retry_target}
use one_dev_army.Pipeline.Run.{
  Reply, ok, error, Answer, running, Loop, Round, return, continue, unset, StageResult,
}
use one_dev_army.Pipeline.Run

abbrev floor : Stage → Stage → ℕ
floor s f = if same f unset then rank s else rank f

-- The measure of a loop at stage `s` that waits for `f` to recover, after `n` failures.
abbrev potential : ℕ → Stage → Stage → ℕ → ℕ
potential m s f n = (9 - floor s f) * (10 * m + 10) + (m - n) * 10 + (9 - rank s)

advance-potential :
    (m n : ℕ) (s f : Stage)
    → same (next s) s ≡ false
    → same s done ≡ false
    → let recovered = not (same f unset) && same s f in
      potential m (next s) (if recovered then unset else f) (if recovered then 0 else n)
      < potential m s f n
unfolding next
advance-potential m n queued f h k = ground arith
advance-potential m n (other x) f h k = cc (eq_refl x)
advance-potential m n s f h k = ground arith

retry-potential :
    (m n : ℕ) (s f : Stage)
    → leb m (n + 1) ≡ false
    → potential m (retry_target s) (if same f unset then s else f) (n + 1) < potential m s f n
unfolding retry_target
retry-potential m n queued f h = ground arith
retry-potential m n s f h = ground arith

module _ {W : Type 0} where
  abbrev measure : ℕ → Loop W → ℕ
  measure m l = potential m l.stage l.failed_stage l.retries

  -- What a round leaves: it returned an answer, or the measure fell.
  abbrev Progress : ℕ → Loop W → Round W → Type 0
  Progress m l (return a l1) = a ≢ running
  Progress m l (continue l1) = measure m l1 < measure m l

  module _ (execute : ℕ → Stage → String → W → Reply × W) (m : ℕ) (task : ℕ) where
    advance-Progress :
        (r : StageResult) (l : Loop W) → Progress m l (Run.advance execute m task r l)
    advance-Progress r l = ground (arith, advance-potential m l.retries l.stage l.failed_stage)

    retry-Progress : (r : StageResult) (l : Loop W) → Progress m l (Run.retry execute m task r l)
    retry-Progress r l = ground (arith, retry-potential m l.retries l.stage l.failed_stage)

    respond-Progress : (l : Loop W) (a : Reply × W) → Progress m l (Run.respond execute m task l a)
    respond-Progress l (ok r, w) =
        let l1 = record (Run.notify execute m task l) { world = w } in
        if-intro (Progress m l) r.success (advance-Progress r l1) (retry-Progress r l1)
    respond-Progress l (error e, w) = λ h. cc

    round-Progress : (l : Loop W) → Progress m l (Run.round execute m task l)
    unfolding Run.round
    round-Progress l = respond-Progress l (execute task l.stage l.context l.world)

    loop_ends :
        (fuel : ℕ) (l : Loop W) → measure m l < fuel → (Run.loop execute m task fuel l).0 ≢ running
    unfolding Run.loop
    loop_ends zero l h = elim h [ ]
    loop_ends (suc fuel) l h =
        ended (loop_ends fuel) (Run.round execute m task l) (round-Progress l)
      where
        ended :
            ((l1 : Loop W) → measure m l1 < fuel → (Run.loop execute m task fuel l1).0 ≢ running)
            → (r : Round W) → Progress m l r
            → (elim r as (λ _. Answer × Loop W) [
              | return a l1 ↦ (a, l1)
              | continue l1 ↦ Run.loop execute m task fuel l1
            ]).0
              ≢ running
        ended ih (return a l1) p = p
        ended ih (continue l1) p = ih l1 (omega arith)

    -- Whatever the executor answers, at every round, and from whatever stage: `Run` returns within
    -- 100 * (maxRetries + 1) rounds.
    pub run-ne-running :
        (s : Stage) (context : String) (w : W)
        → (Run.run execute m task (100 * (m + 1)) s context w).0 ≢ running
    unfolding Run.run
    run-ne-running s context w =
        loop_ends (100 * (m + 1)) (Run.start execute m task s context w) (start_bound s)
      where
        start_bound : (s : Stage) → potential m s unset 0 < 100 * (m + 1)
        start_bound queued = omega arith
        start_bound s = omega arith
