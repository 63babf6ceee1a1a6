-- ===== src/Worker/Manager.antt =====
-- src/WorkerManager.hpp: at most three workers for a URL, and which of them gets the next job.
pub mod Laws
pub mod Bounds
use cdnalizerd.Base.{
  ℕ, zero, suc, Bool, List, [], ◌∷◌, ◌++◌, Option, none, some, ltb, length, if◌then◌else◌,
}
use cdnalizerd.Base.Text.{Text, text_eq}
use cdnalizerd.Job.{Job}
use cdnalizerd.Worker.{Worker, new_worker, launch, is_idle, queue_size, add_job}

-- `MAX_WORKERS_PER_URL`
abbrev pub max_workers_per_url : ℕ
max_workers_per_url = 3

module _ {Work : Type 0} where
  -- The loop over the list: `i` counts the workers that were passed, `least` is the position of
  -- `leastBusy` and `least_size` its queue's size.
  unfoldable pub pick : List (Worker Work) → ℕ → ℕ → ℕ → ℕ
  pick [] i least least_size = least
  pick (w ∷ ws) i least least_size =
      let better = ltb (queue_size w) least_size in
      let rest =
        pick ws (suc i) (if better then i else least)
          (if better then queue_size w else least_size) in
      if is_idle w then i else rest

  -- The loop starts with `leastBusy` at the front.
  unfoldable pub pick_from : List (Worker Work) → ℕ
  unfolding pick
  pick_from [] = 0
  pick_from (w ∷ ws) = pick (w ∷ ws) 0 0 (queue_size w)

  -- `getWorker` on the list of one URL: the list after it, and the position of the worker.
  unfoldable pub get_worker_from : List (Worker Work) → Text → List (Worker Work) × ℕ
  get_worker_from list url =
      if ltb (length list) max_workers_per_url
      then (launch (new_worker url) ∷ list, 0)
      else (list, pick_from list)

  -- `workers[url]`, and the assignment to it.
  unfoldable pub workers_at : List (Text × List (Worker Work)) → Text → List (Worker Work)
  workers_at [] url = []
  workers_at ((u, ws) ∷ m) url = if text_eq u url then ws else workers_at m url

  unfoldable pub set_workers :
      List (Text × List (Worker Work))
      → Text
      → List (Worker Work)
      → List (Text × List (Worker Work))
  set_workers [] url ws = (url, ws) ∷ []
  set_workers ((u, vs) ∷ m) url ws =
      if text_eq u url then (u, ws) ∷ m else (u, vs) ∷ set_workers m url ws

  -- `worker->addJob(job)` at a position.
  unfoldable pub add_job_at : List (Worker Work) → ℕ → Job Work → List (Worker Work)
  unfolding add_job
  add_job_at [] i job = []
  add_job_at (w ∷ ws) zero job = add_job w job ∷ ws
  add_job_at (w ∷ ws) (suc i) job = w ∷ add_job_at ws i job

  -- `list.erase(result)`, which a worker calls when it is done.
  unfoldable pub erase_at : List (Worker Work) → ℕ → List (Worker Work)
  erase_at [] i = []
  erase_at (w ∷ ws) zero = ws
  erase_at (w ∷ ws) (suc i) = w ∷ erase_at ws i

  -- A worker at a position as it is later.
  unfoldable pub replace_at : List (Worker Work) → ℕ → Worker Work → List (Worker Work)
  replace_at [] i v = []
  replace_at (w ∷ ws) zero v = v ∷ ws
  replace_at (w ∷ ws) (suc i) v = w ∷ replace_at ws i v

pub record WorkerManager (Work : Type 0) : Type 0 where
  pub workers : List (Text × List (Worker Work))

module _ {Work : Type 0} where
  -- `getWorker`
  unfoldable pub get_worker : WorkerManager Work → Text → WorkerManager Work × ℕ
  get_worker m url =
      let (ws, i) = get_worker_from (workers_at m.workers url) url in
      (record { workers = set_workers m.workers url ws }, i)

  -- `workers.getWorker(url, rs)` and then `worker->addJob(job)`, as the callers write it.
  unfoldable pub submit : WorkerManager Work → Text → Job Work → WorkerManager Work
  unfolding get_worker
  submit m url job =
      let (m', i) = get_worker m url in
      record { workers = set_workers m'.workers url (add_job_at (workers_at m'.workers url) i job) }

  -- The `onDone` function that `getWorker` gives to `launch`.
  unfoldable pub on_done : WorkerManager Work → Text → ℕ → WorkerManager Work
  on_done m url i = record {
    workers = set_workers m.workers url (erase_at (workers_at m.workers url) i);
  }
