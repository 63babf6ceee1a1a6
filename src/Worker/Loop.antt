-- ===== src/Worker/Loop.antt =====
-- `doWork` of src/Worker.cpp. The connection, the jobs' outcomes and the other coroutines are a
-- parameter: each wait replies whether it threw, and with the jobs that others queued meanwhile.
pub mod Tries
pub mod Laws
pub mod Smooth
pub mod Arrivals
pub mod Invariant
use cdnalizerd.Base.{
  ℕ, zero, suc, ◌+◌, Bool, true, false, List, [], ◌∷◌, ◌++◌, Option, none, some, leb, if◌then◌else◌,
}
use cdnalizerd.Job.{Job}
use cdnalizerd.Worker.{
  Worker, working, idle, dead, has_more_jobs, get_next_job, set_state, end_sentry,
}

pub record Reply (Work World : Type 0) : Type 0 where
  pub success : Bool
  pub arrivals : List (Job Work)
  pub world : World

pub record Environment (Work : Type 0) : Type 1 where
  pub World : Type 0
  -- The constructor of `HTTPS`.
  pub connect : World → Reply Work World
  -- `job.go(conn, token)`
  pub go : Job Work → World → Reply Work World
  -- `conn.reconnect()`
  pub reconnect : World → Reply Work World
  -- The wait of one second.
  pub wait : World → Reply Work World
  -- The destructor of `HTTPS` waits for the shutdown, and throws nothing.
  pub close : World → Reply Work World

abbrev pub max_retries : ℕ
max_retries = 3

module _ {Work : Type 0} (E : Environment Work) where
  -- The worker, the counter `retries`, and what happened: the jobs in the order in which they were
  -- started, and those that finished.
  pub record State : Type 0 where
    pub worker : Worker Work
    pub retries : ℕ
    pub world : E.World
    pub tried : List (Job Work)
    pub finished : List (Job Work)

  pub data Outcome : Type 0 where
    goes_on : State → Outcome
    -- An exception leaves the loops.
    fails : State → Outcome

  -- What a wait leaves: others have added jobs at the end of the queue.
  unfoldable pub waited : State → Reply Work E.World → State
  waited s r = record s {
    worker = record (s.worker) { queue = s.worker.queue ++ r.arrivals };
    world = r.world;
  }

  -- A job that failed: reconnect, and count a retry.
  unfoldable pub after_failure : State → Outcome
  unfolding waited
  after_failure s =
      let r = E.reconnect s.world in
      let s' = waited s r in
      if r.success then goes_on (record s' { retries = s'.retries + 1 }) else fails s'

  pub data Round : Type 0 where
    breaks : State → Round
    repeats : State → Round
    throws : State → Round

  abbrev round_of : Outcome → Round
  round_of (goes_on s) = repeats s
  round_of (fails s) = throws s

  -- One round of `while (retries <= max_retries)`.
  unfoldable pub attempt_once : Job Work → State → Round
  unfolding after_failure
  attempt_once job s =
      let r = E.go job s.world in
      let s' = record (waited s r) { tried = s.tried ++ job ∷ [] } in
      if r.success
      then breaks (record s' { finished = s.finished ++ job ∷ [] })
      else round_of (after_failure s')

  -- The inner loop, on fuel: each round that does not end it counts a retry.
  unfoldable pub attempt : ℕ → Job Work → State → Outcome
  attempt zero job s = goes_on s
  attempt (suc fuel) job s = elim (leb s.retries max_retries) [
    | false ↦ goes_on s
    | true ↦ elim (attempt_once job s) [
      | breaks s' ↦ goes_on s'
      | repeats s' ↦ attempt fuel job s'
      | throws s' ↦ fails s'
    ]
  ]

  -- The end of a round of `while (worker.hasMoreJobs())`: with no more work, wait for a second.
  unfoldable pub idle_round : State → Round
  unfolding waited
  idle_round s =
      let r = E.wait s.world in
      let s' = waited (record s { worker = set_state s.worker idle }) r in
      if r.success
      then (if has_more_jobs s'.worker
          then repeats (record s' { worker = set_state s'.worker working })
          else breaks (record s' { worker = set_state s'.worker dead }))
      else throws s'

  -- The part of the round after the job.
  unfoldable pub end_round : Outcome → Round
  end_round (fails s) = throws s
  end_round (goes_on s) = if has_more_jobs s.worker then repeats s else idle_round s

  -- One round: take the next job, try it, and see if there is more work.
  unfoldable pub job_round : State → Round
  unfolding end_round
  job_round s = elim (get_next_job s.worker) [
    | none ↦ breaks s
    | some (job, w) ↦ end_round (attempt (suc max_retries) job (record s { worker = w }))
  ]

  -- The outer loop, on fuel; `none` means that the fuel ran out.
  unfoldable pub work : ℕ → State → Option Outcome
  work zero s = none
  work (suc fuel) s = elim (has_more_jobs s.worker) [
    | false ↦ some (goes_on s)
    | true ↦ elim (job_round s) [
      | breaks s' ↦ some (goes_on s')
      | repeats s' ↦ work fuel s'
      | throws s' ↦ some (fails s')
    ]
  ]

  abbrev last_state : Outcome → State
  last_state (goes_on s) = s
  last_state (fails s) = s

  -- Before the loops: the state is set, and the connection is made.
  unfoldable pub start_work : Worker Work → E.World → Outcome
  unfolding waited
  start_work w world =
      let r = E.connect world in
      let s =
        waited
          (record {
            worker = set_state w working;
            retries = 0;
            world = world;
            tried = [];
            finished = [];
          })
          r in
      if r.success then goes_on s else fails s

  -- The end of the scope in which the connection is: its destructor runs, and then the sentries.
  unfoldable pub leave_scope : State → State
  unfolding waited
  leave_scope s = let t = waited s (E.close s.world) in record t { worker = end_sentry t.worker }

  -- `doWork`: every exception is logged and dropped, and the destructors run on every path. Where the
  -- connection was not made, there is none to close.
  unfoldable pub do_work : ℕ → Worker Work → E.World → Option State
  unfolding leave_scope
  do_work fuel w world = elim (start_work w world) [
    | fails s ↦ some (record s { worker = end_sentry s.worker })
    | goes_on s ↦ elim (work fuel s) [ none ↦ none | some o ↦ some (leave_scope (last_state o)) ]
  ]
