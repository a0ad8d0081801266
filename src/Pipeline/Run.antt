-- ===== src/Pipeline/Run.antt =====
-- internal/pipeline/pipeline.go: `Pipeline.Run`. The executor is any state-passing function: what it
-- answers may depend on everything that it did before. `notified` is the list of the calls of
-- `onStageChange`, in order.
use one_dev_army.Common.{
  ℕ, zero, suc, ◌+◌, Bool, not, ◌&&◌, ◌||◌, List, [], ◌∷◌, ◌++◌, String, str_eq, if◌then◌else◌, leb,
}
use one_dev_army.Pipeline.Stage.{Stage, done, blocked, other, same, next, retry_target}

-- The `error` of `StageResult` is carried by the executor only, and `Run` never reads it.
pub record StageResult : Type 0 where
  pub stage : Stage
  pub success : Bool
  pub output : String

-- What `Run` returns: the executor's error wrapped with the stage, or a result. `running` is a run
-- that the fuel cut off.
pub data Answer : Type 0 where
  finished : StageResult → Answer
  failure : Stage → String → Answer
  running : Answer

pub data Reply : Type 0 where
  ok : StageResult → Reply
  error : String → Reply

-- The variables of the loop, and the world that the executor acts on.
pub record Loop (W : Type 0) : Type 0 where
  pub stage : Stage
  pub retries : ℕ
  pub failed_stage : Stage
  pub context : String
  pub world : W
  pub notified : List Stage

-- What one round of the loop does: `return`, or go on.
pub data Round (W : Type 0) : Type 0 where
  return : Answer → Loop W → Round W
  continue : Loop W → Round W

abbrev pub unset : Stage
unset = other ""

module _ {W : Type 0} (execute : ℕ → Stage → String → W → Reply × W) (max_retries : ℕ)
    (task : ℕ) where
  abbrev pub notify : Loop W → Loop W
  notify l = record l { notified = l.notified ++ l.stage ∷ [] }

  -- The branch `result.Success`.
  abbrev pub advance : StageResult → Loop W → Round W
  advance r l =
      let l1 = record l { context = if str_eq r.output "" then l.context else r.output } in
      let recovered = not (same l.failed_stage unset) && same l.stage l.failed_stage in
      let l2 = record l1 {
        retries = if recovered then 0 else l.retries;
        failed_stage = if recovered then unset else l.failed_stage;
        stage = next l.stage;
      } in
      if same (next l.stage) l.stage || same l.stage done
      then return (finished (record r { stage = done })) l1
      else (if same (next l.stage) done
          then return (finished (record r { stage = done })) (notify l2)
          else continue l2)

  -- The branch of a failed stage.
  abbrev pub retry : StageResult → Loop W → Round W
  retry r l =
      let l1 = record l { retries = l.retries + 1 } in
      if leb max_retries (l.retries + 1)
      then return (finished (record r { stage = blocked })) (notify (record l1 { stage = blocked }))
      else continue (record l1 {
        failed_stage = if same l.failed_stage unset then l.stage else l.failed_stage;
        stage = retry_target l.stage;
      })

  abbrev pub respond : Loop W → Reply × W → Round W
  respond l (ok r, w) =
      let l1 = record (notify l) { world = w } in if r.success then advance r l1 else retry r l1
  respond l (error e, w) = return (failure l.stage e) (record (notify l) { world = w })

  unfoldable pub round : Loop W → Round W
  round l = respond l (execute task l.stage l.context l.world)

  unfoldable pub loop : ℕ → Loop W → Answer × Loop W
  loop zero l = (running, l)
  loop (suc fuel) l = elim (round l) [ return a l1 ↦ (a, l1) | continue l1 ↦ loop fuel l1 ]

  abbrev pub start : Stage → String → W → Loop W
  start s context w = record {
    stage = s;
    retries = 0;
    failed_stage = unset;
    context = context;
    world = w;
    notified = [];
  }

  -- `Run`, with the fuel that the loop is given.
  unfoldable pub run : ℕ → Stage → String → W → Answer × Loop W
  unfolding loop
  run fuel s context w = loop fuel (start s context w)
