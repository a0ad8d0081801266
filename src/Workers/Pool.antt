-- ===== src/Workers/Pool.antt =====
-- internal/worker/pool.go: what one worker of the pool does. The queue and the processor are
-- interfaces of the source, and so they are here; `now` is the clock, `cancelled` is
-- `ctx.Err() != nil`.
pub mod Drain
use Prim.Native.String.{◌++◌}
use one_dev_army.Common.{
  ℕ, zero, suc, Bool, true, false, Option, none, some, List, [], ◌∷◌, String, if◌then◌else◌,
}
use one_dev_army.Common.Effect.{Result, ok, err, Effect, pure}
use one_dev_army.Mvp.Worker.Texts.{itoa}
use one_dev_army.Workers.{Task, Worker, new_worker, set_task, set_idle}

pub record TaskQueue (W : Type 0) : Type 0 where
  pub next : Effect W (Option Task)
  pub mark_done : ℕ → Effect W (Unit {0})
  pub mark_blocked : ℕ → String → Effect W (Unit {0})

-- `EmptyQueue`
abbrev pub empty_queue : {W : Type 0} → TaskQueue W
empty_queue = record {
  next = pure none;
  mark_done = λ id. pure tt;
  mark_blocked = λ id reason. pure tt;
}

-- `Process` may change what the worker shows.
pub record Pool (W : Type 0) : Type 0 where
  pub queue : TaskQueue W
  pub process : Task → Worker → W → Result (Unit {0}) × Worker × W
  pub now : W → ℕ × W
  pub cancelled : W → Bool

-- The workers of `NewPool`, from number `i` on.
unfoldable pub new_workers : ℕ → ℕ → List Worker
new_workers i zero = []
new_workers i (suc n) = new_worker ("worker-" ++ itoa i) ∷ new_workers (suc i) n

module _ {W : Type 0} (p : Pool W) where
  abbrev pub mark : Task → Result (Unit {0}) → W → W
  mark t (ok u) w = (p.queue.mark_done t.id w).1
  mark t (err e) w = (p.queue.mark_blocked t.id e w).1

  -- The body of the loop of `run` for one task.
  unfoldable pub work : Task → Worker → W → Worker × W
  work t worker w =
      let (time, w1) = p.now w in
      let (r, worker1, w2) = p.process t (set_task t time worker) w1 in
      (set_idle worker1, mark t r w2)

  -- What follows the answer of the queue: `none` ends the loop.
  abbrev pub offered : Result (Option Task) → Option Task
  offered (ok o) = o
  offered (err e) = none

  -- `run`, up to `fuel` tasks.
  unfoldable pub run : ℕ → Worker → W → Worker × W
  run zero worker w = (worker, w)
  run (suc fuel) worker w =
      let (r, w1) = p.queue.next w in
      if p.cancelled w then (worker, w) else (elim (offered r) [
        | none ↦ (worker, w1)
        | some t ↦ run fuel (work t worker w1).0 (work t worker w1).1
      ])
