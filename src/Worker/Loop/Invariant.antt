-- ===== src/Worker/Loop/Invariant.antt =====
-- What the waits of `doWork` (src/Worker.cpp) keep, the whole of it keeps.
use cdnalizerd.Base.{
  ℕ, zero, suc, ◌≡◌, inl, inr, true, false, Option, none, some, Bool-cases, Option-cases, leb,
}
use cdnalizerd.Base.Holds.{Holds, nothing, result}
use cdnalizerd.Job.{Job}
use cdnalizerd.Worker.{Worker, has_more_jobs, get_next_job}
use cdnalizerd.Worker.Loop.{
  Environment, max_retries, State, Outcome, goes_on, fails, Round, breaks, repeats, throws, waited,
  leave_scope, after_failure, attempt_once, attempt, idle_round, end_round, job_round, work,
  last_state, start_work, do_work,
}
use cdnalizerd.Worker.Loop.Laws.{asleep, begun, start_work_ok}

module _ {Work : Type 0} (E : Environment Work) (P : E.World → Type 0)
    (go_keeps : (j : Job Work) (w : E.World) → P w → P (E.go j w).world)
    (reconnect_keeps : (w : E.World) → P w → P (E.reconnect w).world)
    (wait_keeps : (w : E.World) → P w → P (E.wait w).world) where
  abbrev RoundKeeps : Round E → Type 0
  RoundKeeps (breaks s) = P s.world
  RoundKeeps (repeats s) = P s.world
  RoundKeeps (throws s) = P s.world

  abbrev Keeps : Outcome E → Type 0
  Keeps o = P (last_state E o).world

  attempt_once-RoundKeeps :
      (job : Job Work) (s : State E) → P s.world → RoundKeeps (attempt_once E job s)
  unfolding attempt_once after_failure waited
  attempt_once-RoundKeeps job s p =
      let q = go_keeps job s.world p in
      elim (Bool-cases (E.go job s.world).success) [
        | inl e ↦ rw (attempt_once, e) q
        | inr e ↦ elim (Bool-cases (E.reconnect (E.go job s.world).world).success) [
          | inl f ↦ rw (attempt_once, e, f) (reconnect_keeps _ q)
          | inr f ↦ rw (attempt_once, e, f) (reconnect_keeps _ q)
        ]
      ]

  after_try :
      (fuel : ℕ) (job : Job Work) (r : Round E)
      → RoundKeeps r
      → ((s : State E) → P s.world → Keeps (attempt E fuel job s))
      → Keeps
          (elim r [ breaks t ↦ goes_on t | repeats t ↦ attempt E fuel job t | throws t ↦ fails t ])
  after_try fuel job (breaks t) p later = p
  after_try fuel job (repeats t) p later = later t p
  after_try fuel job (throws t) p later = p

  attempt-Keeps :
      (fuel : ℕ) (job : Job Work) (s : State E) → P s.world → Keeps (attempt E fuel job s)
  unfolding attempt
  attempt-Keeps zero job s p = p
  attempt-Keeps (suc fuel) job s p = elim (Bool-cases (leb s.retries max_retries)) [
    | inl e ↦
        rw (attempt, e)
          (after_try fuel job (attempt_once E job s) (attempt_once-RoundKeeps job s p)
            (attempt-Keeps fuel job))
    | inr e ↦ rw (attempt, e) p
  ]

  idle_round-RoundKeeps : (s : State E) → P s.world → RoundKeeps (idle_round E s)
  unfolding idle_round waited
  idle_round-RoundKeeps s p =
      let q = wait_keeps s.world p in
      elim (Bool-cases (E.wait s.world).success) [
        | inl e ↦ elim (Bool-cases (has_more_jobs (asleep E s).worker)) [
          | inl f ↦ rw (idle_round, e, f) q
          | inr f ↦ rw (idle_round, e, f) q
        ]
        | inr e ↦ rw (idle_round, e) q
      ]

  end_round-RoundKeeps : (o : Outcome E) → Keeps o → RoundKeeps (end_round E o)
  unfolding end_round
  end_round-RoundKeeps (fails s) p = p
  end_round-RoundKeeps (goes_on s) p = elim (Bool-cases (has_more_jobs s.worker)) [
    | inl e ↦ rw (end_round, e) p
    | inr e ↦ rw (end_round, e) (idle_round-RoundKeeps s p)
  ]

  job_round-RoundKeeps : (s : State E) → P s.world → RoundKeeps (job_round E s)
  unfolding job_round
  job_round-RoundKeeps s p = elim (Option-cases (get_next_job s.worker)) [
    | inl e ↦ rw (job_round, e) p
    | inr ((job, w), e) ↦
        rw (job_round, e) (end_round-RoundKeeps _ (attempt-Keeps 4 job (record s { worker = w }) p))
  ]

  after_round :
      (fuel : ℕ) (r : Round E)
      → RoundKeeps r
      → ((s : State E) → P s.world → Holds Keeps (work E fuel s))
      → Holds Keeps (elim r [
        | breaks t ↦ some (goes_on t)
        | repeats t ↦ work E fuel t
        | throws t ↦ some (fails t)
      ])
  after_round fuel (breaks t) p later = result p
  after_round fuel (repeats t) p later = later t p
  after_round fuel (throws t) p later = result p

  work-Keeps : (fuel : ℕ) (s : State E) → P s.world → Holds Keeps (work E fuel s)
  unfolding work
  work-Keeps zero s p = nothing
  work-Keeps (suc fuel) s p = elim (Bool-cases (has_more_jobs s.worker)) [
    | inl e ↦
        rw (work, e) (after_round fuel (job_round E s) (job_round-RoundKeeps s p) (work-Keeps fuel))
    | inr e ↦ rw (work, e) (result p)
  ]

  -- If what the jobs, the reconnections and the waits keep holds after the connection was made, what its
  -- shutdown makes of it holds when the worker ends, and so does what holds when it could not be made.
  pub do_work-Keeps :
      (Q : E.World → Type 0)
      → ((w : E.World) → P w → Q (E.close w).world)
      → (fuel : ℕ) (w : Worker Work) (world : E.World)
      → ((E.connect world).success ≡ true → P (E.connect world).world)
      → ((E.connect world).success ≡ false → Q (E.connect world).world)
      → Holds (λ (s : State E). Q s.world) (do_work E fuel w world)
  unfolding do_work start_work leave_scope waited
  do_work-Keeps Q imp fuel w world made lost = elim (Bool-cases (E.connect world).success) [
    | inl e ↦
        let s = begun E w world in
        rw (do_work, start_work_ok E w world e) (ended (work E fuel s) (work-Keeps fuel s (made e)))
    | inr e ↦ rw (do_work, start_work, e) (result (lost e))
  ]
    where
      ended :
          (o : Option (Outcome E))
          → Holds Keeps o
          → Holds
              (λ (s : State E). Q s.world)
              (elim o [ none ↦ none | some r ↦ some (leave_scope E (last_state E r)) ])
      ended none h = nothing
      ended (some r) (result p) = result (imp _ p)
