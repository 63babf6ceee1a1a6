-- ===== src/Worker/Manager/Bounds.antt =====
-- src/WorkerManager.hpp gives no URL more than three workers.
use cdnalizerd.Base.{ℕ, zero, suc, ◌≤◌, ◌≡◌, refl, ap, List, [], ◌∷◌, arith, length}
use cdnalizerd.Base.Text.{Text}
use cdnalizerd.Job.{Job}
use cdnalizerd.Worker.{Worker}
use cdnalizerd.Worker.Manager.{
  max_workers_per_url, get_worker_from, workers_at, set_workers, add_job_at, erase_at, replace_at,
  WorkerManager, get_worker, submit, on_done,
}
use cdnalizerd.Worker.Manager.Laws.{workers_at-set_workers}

module _ {Work : Type 0} where
  -- No URL has more than three workers.
  abbrev pub IsBounded : WorkerManager Work → Type 0
  IsBounded m = (url : Text) → length (workers_at m.workers url) ≤ max_workers_per_url

  length-add_job_at :
      (ws : List (Worker Work)) (i : ℕ) (job : Job Work) → length (add_job_at ws i job) ≡ length ws
  unfolding add_job_at
  length-add_job_at [] i job = refl
  length-add_job_at (w ∷ ws) zero job = refl
  length-add_job_at (w ∷ ws) (suc i) job = ap suc (length-add_job_at ws i job)

  length-erase_at : (ws : List (Worker Work)) (i : ℕ) → length (erase_at ws i) ≤ length ws
  unfolding erase_at
  length-erase_at [] i = omega arith
  length-erase_at (w ∷ ws) zero = omega arith
  length-erase_at (w ∷ ws) (suc i) = omega (arith, length-erase_at ws i)

  length-replace_at :
      (ws : List (Worker Work)) (i : ℕ) (v : Worker Work) → length (replace_at ws i v) ≡ length ws
  unfolding replace_at
  length-replace_at [] i v = refl
  length-replace_at (w ∷ ws) zero v = refl
  length-replace_at (w ∷ ws) (suc i) v = ap suc (length-replace_at ws i v)

  set_workers-IsBounded :
      (m : List (Text × List (Worker Work))) (url : Text) (ws : List (Worker Work))
      → length ws ≤ 3
      → ((other : Text) → length (workers_at m other) ≤ 3)
      → (other : Text) → length (workers_at (set_workers m url ws) other) ≤ 3
  set_workers-IsBounded m url ws h k other = rw workers_at-set_workers (ground (arith, k other))

  get_worker_from_bound :
      (ws : List (Worker Work)) (url : Text) → length ws ≤ 3 → length (get_worker_from ws url).0 ≤ 3
  unfolding get_worker_from
  get_worker_from_bound ws url h = ground arith

  pub get_worker-IsBounded :
      (m : WorkerManager Work) (url : Text) → IsBounded m → IsBounded (get_worker m url).0
  unfolding get_worker
  get_worker-IsBounded m url h =
      set_workers-IsBounded m.workers url _
        (get_worker_from_bound (workers_at m.workers url) url (h url)) h

  pub add_job_at-IsBounded :
      (m : WorkerManager Work) (url : Text) (i : ℕ) (job : Job Work)
      → IsBounded m
      → IsBounded (record {
        workers = set_workers m.workers url (add_job_at (workers_at m.workers url) i job);
      })
  add_job_at-IsBounded m url i job h =
      set_workers-IsBounded m.workers url _ (rw length-add_job_at (h url)) h

  pub replace_at-IsBounded :
      (m : WorkerManager Work) (url : Text) (i : ℕ) (v : Worker Work)
      → IsBounded m
      → IsBounded (record {
        workers = set_workers m.workers url (replace_at (workers_at m.workers url) i v);
      })
  replace_at-IsBounded m url i v h =
      set_workers-IsBounded m.workers url _ (rw length-replace_at (h url)) h

  pub on_done-IsBounded :
      (m : WorkerManager Work) (url : Text) (i : ℕ) → IsBounded m → IsBounded (on_done m url i)
  unfolding on_done
  on_done-IsBounded m url i h =
      set_workers-IsBounded m.workers url _
        (omega (arith, length-erase_at (workers_at m.workers url) i, h url)) h

  -- Giving out a worker, submitting a job and removing a worker that is done all keep the number of
  -- workers of every URL at three or below.
  pub manager-IsBounded :
      (m : WorkerManager Work) (url : Text) (i : ℕ) (job : Job Work)
      → IsBounded m
      → IsBounded (get_worker m url).0 × IsBounded (submit m url job) × IsBounded (on_done m url i)
  unfolding submit
  manager-IsBounded m url i job h =
      let ws = workers_at m.workers url in
      let got = set_workers-IsBounded m.workers url _ (get_worker_from_bound ws url (h url)) h in
      (
        got,
        set_workers-IsBounded _ url _ (rw length-add_job_at (got url)) got,
        on_done-IsBounded m url i h,
      )
