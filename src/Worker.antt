-- ===== src/Worker.antt =====
-- src/Worker.hpp: a worker and its queue of jobs.
pub mod Connected
pub mod Loop
pub mod Manager
use cdnalizerd.Base.{ℕ, Bool, true, false, List, [], ◌∷◌, ◌++◌, Option, none, some, length, ltb}
use cdnalizerd.Base.Text.{Text}
use cdnalizerd.Job.{Job}

pub data WorkerState : Type 0 where
  raw ready working idle dead : WorkerState

pub record Worker (Work : Type 0) : Type 0 where
  pub state : WorkerState
  pub queue : List (Job Work)
  pub url : Text

abbrev idle_state : WorkerState → Bool
idle_state ready = true
idle_state idle = true
idle_state _ = false

module _ {Work : Type 0} where
  -- `Worker(rs, url)`. The URL that it makes of the text is kept as the text: the callers take the text
  -- from a URL.
  unfoldable pub new_worker : Text → Worker Work
  new_worker url = record { state = raw; queue = []; url = url }

  -- `launch`; the loop that it spawns is in Worker/Loop.antt.
  unfoldable pub launch : Worker Work → Worker Work
  launch w = record w { state = ready }

  -- `idle`
  unfoldable pub is_idle : Worker Work → Bool
  is_idle w = idle_state w.state

  unfoldable pub queue_size : Worker Work → ℕ
  queue_size w = length w.queue

  unfoldable pub add_job : Worker Work → Job Work → Worker Work
  add_job w job = record w { queue = w.queue ++ job ∷ [] }

  abbrev front_job : Worker Work → List (Job Work) → Option (Job Work × Worker Work)
  front_job w [] = none
  front_job w (job ∷ rest) = some (job, record w { queue = rest })

  -- `getNextJob`; `none` is its failed assertion.
  unfoldable pub get_next_job : Worker Work → Option (Job Work × Worker Work)
  get_next_job w = front_job w w.queue

  unfoldable pub has_more_jobs : Worker Work → Bool
  has_more_jobs w = ltb 0 (length w.queue)

  -- `setState`, and `updateState` of the sentry that it returns.
  unfoldable pub set_state : Worker Work → WorkerState → Worker Work
  set_state w new_state = record w { state = new_state }

  -- `~StateSentry`, which nothing aborts.
  unfoldable pub end_sentry : Worker Work → Worker Work
  end_sentry w = record w { state = dead }
