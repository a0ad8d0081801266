-- ===== src/Workers/Pool/Drain.antt =====
-- A worker of the pool empties the queue.
use one_dev_army.Common.{
  ℕ, zero, suc, ◌<◌, ◌≡◌, refl, ◌∙◌, ap, false, Option, none, some, List, [], ◌∷◌, map, String,
  length, arith,
}
use one_dev_army.Common.Effect.{Result, ok, err}
use one_dev_army.Workers.{Task, Worker, idle, set_task, set_idle}
use one_dev_army.Workers.Pool.{Pool, empty_queue}
use one_dev_army.Workers.Pool

abbrev pub first_task : List Task → Option Task
first_task [] = none
first_task (t ∷ ts) = some t

abbrev pub other_tasks : List Task → List Task
other_tasks [] = []
other_tasks (t ∷ ts) = ts

-- What is seen of a world: the tasks that the queue will hand out, what the queue keeps of the marks,
-- and what the processor keeps of its answers.
abbrev pub View : Type 0 → Type 0 → Type 0
View M A = List Task × M × A

-- How a mark, or an answer, about a task enters what is kept of them.
abbrev pub Note : Type 0 → Type 0
Note M = ℕ → Result (Unit {0}) → M → M

abbrev pub Answer : Type 0
Answer = ℕ × Result (Unit {0})

abbrev pub note_all : {M : Type 0} → Note M → List Answer → M → M
note_all note [] m = m
note_all note ((id, r) ∷ log) m = note_all note log (note id r m)

-- The queue hands out its first task, without an error; `MarkDone` and `MarkBlocked` enter a success
-- and a failure with its reason; the processor enters what it answers; nothing else changes any of
-- the three, and the context is not cancelled.
pub record IsQueue {W M A : Type 0} (p : Pool W) (view : W → View M A) (mark : Note M)
    (answer : Note A) : Type 0 where
  pub taken :
      (w : W)
      → ((p.queue.next w).0 ≡ ok (first_task (view w).0))
        × (view (p.queue.next w).1 ≡ (other_tasks (view w).0, (view w).1, (view w).2))
  pub done :
      (id : ℕ) (w : W)
      → view (p.queue.mark_done id w).1 ≡ ((view w).0, mark id (ok tt) (view w).1, (view w).2)
  pub blocked :
      (id : ℕ) (s : String) (w : W)
      → view (p.queue.mark_blocked id s w).1 ≡ ((view w).0, mark id (err s) (view w).1, (view w).2)
  pub processed :
      (t : Task) (worker : Worker) (w : W)
      → view (p.process t worker w).2
        ≡ ((view w).0, (view w).1, answer t.id (p.process t worker w).0 (view w).2)
  pub timed : (w : W) → view (p.now w).1 ≡ view w
  pub live : (w : W) → p.cancelled w ≡ false

abbrev pub ids : List Task → List ℕ
ids = map (λ t. t.id)

-- The program's own queue, which is always empty and keeps no marks, is one.
pub empty_queue-IsQueue :
    {W : Type 0} (p : Pool W)
    → ((w : W) → p.cancelled w ≡ false)
    → IsQueue (record p { queue = empty_queue }) (λ w. ([], tt, tt)) (λ id r m. m) (λ id r a. a)
empty_queue-IsQueue p live = record {
  taken = λ w. (refl, refl);
  done = λ id w. refl;
  blocked = λ id s w. refl;
  processed = λ t worker w. refl;
  timed = λ w. refl;
  live = live;
}

module _ {W M A : Type 0} (p : Pool W) (view : W → View M A) (mark : Note M) (answer : Note A)
    (q : IsQueue p view mark answer) where
  mark_lem :
      (t : Task) (r : Result (Unit {0})) (w : W)
      → view (Pool.mark p t r w) ≡ ((view w).0, mark t.id r (view w).1, (view w).2)
  mark_lem t (ok tt) w = q.done t.id w
  mark_lem t (err e) w = q.blocked t.id e w

  -- What the processor answers to the task.
  abbrev answer_to : Task → Worker → W → Result (Unit {0})
  answer_to t worker w = (p.process t (set_task t (p.now w).0 worker) (p.now w).1).0

  work_lem :
      (t : Task) (worker : Worker) (w : W) (ts : List Task) (m : M) (a : A)
      → view w ≡ (ts, m, a)
      → let r = answer_to t worker w in
        view (Pool.work p t worker w).1 ≡ (ts, mark t.id r m, answer t.id r a)
  unfolding Pool.work
  work_lem t worker w ts m a e =
      let w1 = (p.now w).1 in
      let started = set_task t (p.now w).0 worker in
      let r = answer_to t worker w in
      mark_lem t r (p.process t started w1).2
      ∙ (ap (λ (v : View M A). (v.0, mark t.id r v.1, v.2)) (q.processed t started w1)
          ∙ ap (λ (v : View M A). (v.0, mark t.id r v.1, answer t.id r v.2)) (q.timed w ∙ e))

  work-idle : (t : Task) (worker : Worker) (w : W) → (Pool.work p t worker w).0.status ≡ idle
  unfolding Pool.work set_idle
  work-idle t worker w = refl

  -- The worker ended, idle, with nothing in the queue, and the queue was told what the processor
  -- answered.
  abbrev pub IsDrained : View M A → Worker × W → Type 0
  IsDrained v end =
      (log : List Answer) × (view end.1 ≡ ([], note_all mark log v.1, note_all answer log v.2))
      × (map (λ x. x.0) log ≡ ids v.0)
      × (end.0.status ≡ idle)

  drain :
      (fuel : ℕ) (ts : List Task) (m : M) (a : A) (worker : Worker) (w : W)
      → length ts < fuel
      → view w ≡ (ts, m, a)
      → worker.status ≡ idle
      → IsDrained (ts, m, a) (Pool.run p fuel worker w)
  unfolding Pool.run
  drain zero ts m a worker w h e k = elim h [ ]
  drain (suc fuel) [] m a worker w h e k =
      let (r, v) = q.taken w in
      let ends = r ∙ ap (λ (v : View M A). ok (first_task v.0)) e in
      rw (q.live w, ends) ([], v ∙ ap (λ (v : View M A). (other_tasks v.0, v.1, v.2)) e, refl, k)
  drain (suc fuel) (t ∷ ts) m a worker w h e k =
      let (r, v) = q.taken w in
      let takes = r ∙ ap (λ (v : View M A). ok (first_task v.0)) e in
      let w1 = (p.queue.next w).1 in
      let left = v ∙ ap (λ (v : View M A). (other_tasks v.0, v.1, v.2)) e in
      let reply = answer_to t worker w1 in
      let (log, end, same, still) =
        drain fuel ts (mark t.id reply m) (answer t.id reply a) (Pool.work p t worker w1).0
          (Pool.work p t worker w1).1 (omega arith) (work_lem t worker w1 ts m a left)
          (work-idle t worker w1) in
      rw (q.live w, takes) ((t.id, reply) ∷ log, end, ap (λ l. t.id ∷ l) same, still)

  -- Let the queue hand out its tasks in order, without an error, and be changed by nobody else, and
  -- let the context not be cancelled. Then a worker that is idle, with fuel for one round more than
  -- there are tasks, ends, idle again and with nothing left in the queue. There is one list of answers,
  -- one for each task in the order of the queue, such that the processor gave just these and the queue
  -- was told just these: done for a success, blocked with the reason for an error.
  pub run-drains :
      (fuel : ℕ) (worker : Worker) (w : W)
      → length (view w).0 < fuel
      → worker.status ≡ idle
      → IsDrained (view w) (Pool.run p fuel worker w)
  run-drains fuel worker w h k = drain fuel (view w).0 (view w).1 (view w).2 worker w h refl k
