-- ===== src/Tests/Queues.antt =====
-- A worker to whom others bring work while it works.
use cdnalizerd.Base.{
  ℕ, zero, suc, ◌≤◌, ◌≡◌, refl, true, List, [], ◌∷◌, ◌++◌, some, arith, length, leb,
}
use cdnalizerd.Base.Text.{codes}
use cdnalizerd.Job.{Job}
use cdnalizerd.Worker.{Worker, ready, dead}
use cdnalizerd.Worker.Loop.{Environment, Reply, State, do_work}
use cdnalizerd.Worker.Loop.Arrivals.{IsLogged}
use cdnalizerd.Worker.Loop.Arrivals.FirstIn.{Runs, IsCalm}
use cdnalizerd.Worker.Loop.Arrivals.Served.{do_work_served}

abbrev task : ℕ → ℕ → Job ℕ
task id patience = record { id = id; name = codes "task"; work = patience }

-- The world is a clock. A task that always fails arrives with the second tick.
abbrev seen : ℕ → List (Job ℕ)
seen zero = []
seen (suc zero) = []
seen (suc (suc n)) = task 7 99 ∷ []

abbrev brought : ℕ → List (Job ℕ)
brought zero = []
brought (suc zero) = task 7 99 ∷ []
brought (suc (suc n)) = []

abbrev reply : ℕ → Reply ℕ ℕ
reply n = record { success = true; arrivals = brought n; world = suc n }

abbrev clock : Environment ℕ
clock = record {
  World = ℕ;
  connect = reply;
  go = λ j n. record (reply n) { success = leb j.work n };
  reconnect = reply;
  wait = reply;
  close = reply;
}

seen-brought : (n : ℕ) → seen (suc n) ≡ seen n ++ brought n
seen-brought zero = refl
seen-brought (suc zero) = refl
seen-brought (suc (suc n)) = refl

clock-IsLogged : IsLogged clock seen
clock-IsLogged = record {
  connect = seen-brought;
  go = λ j. seen-brought;
  reconnect = seen-brought;
  wait = seen-brought;
  close = seen-brought;
}

seen_few : (n : ℕ) → length (seen n) ≤ 1
seen_few zero = omega arith
seen_few (suc zero) = omega arith
seen_few (suc (suc n)) = omega arith

abbrev waiting : Worker ℕ
waiting = record { state = ready; queue = task 5 0 ∷ task 6 3 ∷ []; url = codes "u" }

do_work_served_example :
    (t : State clock) × (do_work clock 4 waiting 0 ≡ some t)
    × (t.worker.state ≡ dead)
    × (taken : List (Job ℕ)) × (waiting.queue ++ seen t.world ≡ taken ++ t.worker.queue)
    × Runs taken t.tried t.finished
    × (IsCalm clock
        → (v : ℕ) × (t.worker.queue ≡ (clock.close v).arrivals) × (t.world ≡ (clock.close v).world))
do_work_served_example =
    do_work_served clock seen 1 4 waiting 0 clock-IsLogged seen_few refl (omega arith)
