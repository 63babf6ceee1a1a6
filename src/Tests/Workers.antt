-- ===== src/Tests/Workers.antt =====
-- Workers at concrete data. What a job does is a number: how often it fails.
use mathlib.Core.List.{Perm}
use cdnalizerd.Base.{
  ℕ, ◌+◌, ◌≤◌, ◌≡◌, refl, true, false, List, [], ◌∷◌, some, arith, if◌then◌else◌, length, leb,
}
use cdnalizerd.Base.Text.{codes, text_eq}
use cdnalizerd.Job.{Job}
use cdnalizerd.Worker.{Worker, ready, working, dead, is_idle, queue_size}
use cdnalizerd.Worker.Loop.{Environment, State, do_work}
use cdnalizerd.Worker.Loop.Tries.{IsQuiet}
use cdnalizerd.Worker.Loop.Laws.{do_work_quiet, do_work_drops_all}
use cdnalizerd.Worker.Manager.{
  get_worker_from, pick_from, WorkerManager, workers_at, get_worker, submit,
}
use cdnalizerd.Worker.Manager.Bounds.{IsBounded, manager-IsBounded}
use cdnalizerd.Worker.Manager.Laws.{Gets, all_jobs, submit-perm, get_worker-Gets}

abbrev job : ℕ → ℕ → Job ℕ
job id failures = record { id = id; name = codes "job"; work = failures }

-- The world counts the tries since a job last succeeded.
abbrev flaky : Environment ℕ
flaky = record {
  World = ℕ;
  connect = λ w. record { success = true; arrivals = []; world = w };
  go = λ j w. record {
    success = leb j.work w;
    arrivals = [];
    world = if leb j.work w then 0 else w + 1;
  };
  reconnect = λ w. record { success = true; arrivals = []; world = w };
  wait = λ w. record { success = true; arrivals = []; world = w };
  close = λ w. record { success = true; arrivals = []; world = w };
}

flaky-IsQuiet : IsQuiet flaky
flaky-IsQuiet = record {
  connect = λ w. (refl, refl);
  go = λ j w. refl;
  reconnect = λ w. (refl, refl);
  wait = λ w. (refl, refl);
  close = λ w. refl;
}

abbrev loaded : List (Job ℕ) → Worker ℕ
loaded jobs = record { state = ready; queue = jobs; url = codes "u" }

do_work_quiet_example :
    (t : State flaky) × (do_work flaky 3 (loaded (job 0 2 ∷ job 1 1 ∷ [])) 0 ≡ some t)
    × (t.worker.state ≡ dead)
    × (t.worker.queue ≡ [])
    × (length t.tried ≡ length t.finished + t.retries)
    × (t.retries ≤ 4)
    × (t.retries ≤ 3 → t.finished ≡ job 0 2 ∷ job 1 1 ∷ [])
do_work_quiet_example =
    do_work_quiet flaky 3 (loaded (job 0 2 ∷ job 1 1 ∷ [])) 0 flaky-IsQuiet (omega arith)

-- The same with a job that needs more tries than a worker makes.
abbrev stuck : Environment ℕ
stuck = record flaky { go = λ j w. record { success = false; arrivals = []; world = w } }

stuck-IsQuiet : IsQuiet stuck
stuck-IsQuiet = record {
  connect = λ w. (refl, refl);
  go = λ j w. refl;
  reconnect = λ w. (refl, refl);
  wait = λ w. (refl, refl);
  close = λ w. refl;
}

do_work_drops_all_example :
    (t : State stuck) × (do_work stuck 4 (loaded (job 0 9 ∷ job 1 0 ∷ job 2 0 ∷ [])) 0 ≡ some t)
    × (t.worker.queue ≡ [])
    × (t.tried ≡ job 0 9 ∷ job 0 9 ∷ job 0 9 ∷ job 0 9 ∷ [])
    × (t.finished ≡ [])
do_work_drops_all_example =
    do_work_drops_all stuck 4 (loaded (job 0 9 ∷ job 1 0 ∷ job 2 0 ∷ [])) 0 (job 0 9)
      (job 1 0 ∷ job 2 0 ∷ []) stuck-IsQuiet (omega arith) refl (λ x. refl)

abbrev busy : WorkerManager ℕ
busy = record {
  workers =
      (
        codes "u",
        record { state = working; queue = job 0 0 ∷ job 1 0 ∷ []; url = codes "u" }
            ∷ record { state = working; queue = job 2 0 ∷ []; url = codes "u" }
            ∷ record { state = working; queue = job 3 0 ∷ []; url = codes "u" }
            ∷ [],
      )
      ∷ [];
}

-- The second worker has the first of the shortest queues.
get_worker_run : (get_worker busy (codes "u")).1 ≡ 1
unfolding get_worker workers_at text_eq get_worker_from pick_from is_idle queue_size
get_worker_run = refl

get_worker-Gets_example : Gets (codes "u") (workers_at busy.workers (codes "u")) (
  workers_at (get_worker busy (codes "u")).0.workers (codes "u"),
  (get_worker busy (codes "u")).1,
)
get_worker-Gets_example = (get_worker-Gets busy (codes "u")).0

busy-IsBounded : IsBounded busy
unfolding workers_at
busy-IsBounded url = ground arith

manager-IsBounded_example : IsBounded (submit busy (codes "u") (job 4 0))
manager-IsBounded_example = (manager-IsBounded busy (codes "u") 0 (job 4 0) busy-IsBounded).1

submit-perm_example :
    Perm
      (all_jobs (workers_at (submit busy (codes "u") (job 4 0)).workers (codes "u")))
      (job 4 0 ∷ all_jobs (workers_at busy.workers (codes "u")))
submit-perm_example = (submit-perm busy (codes "u") (job 4 0)).0
