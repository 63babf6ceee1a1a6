-- ===== src/Worker/Loop/Arrivals/Served.antt =====
-- `doWork` of src/Worker.cpp to its end: which jobs it leaves in the queue, and that it ends.
use cdnalizerd.Base.{
  ℕ, zero, suc, ◌+◌, ◌≤◌, ◌<◌, ◌≡◌, ◌⊎◌, inl, inr, refl, sym, ap, ◌∙◌, false, List, [], ◌∷◌, ◌++◌,
  some, arith, length, length-append, append_assoc, Bool-cases,
}
use native.Mathlib.Decide.{dec_le}
use cdnalizerd.Job.{Job}
use cdnalizerd.Worker.{Worker, dead, working, has_more_jobs, set_state, end_sentry}
use cdnalizerd.Worker.Loop.{
  Environment, max_retries, State, Outcome, goes_on, fails, Round, breaks, repeats, throws, waited,
  leave_scope, attempt, idle_round, end_round, job_round, work, last_state, start_work, do_work,
}
use cdnalizerd.Worker.Loop.Laws.{
  asleep, begun, job_round_cons, without_first, start_work_ok, work_repeats, work_stop,
}
use cdnalizerd.Worker.Loop.Tries.{attempt_once_ok, attempt_step, attempt_exhausted}
use cdnalizerd.Worker.Loop.Arrivals.{IsLogged, attempt-Ran, once_again, retried}
use cdnalizerd.Worker.Loop.Arrivals.FirstIn.{
  IsCalm, IsOrdered, Runs, has_more_jobs-nil, taken_next, waited-IsOrdered,
}

List-cases : {A : Type 0} (l : List A) → (l ≡ []) ⊎ ((a : A) × (rest : List A) × (l ≡ a ∷ rest))
List-cases [] = inl refl
List-cases (a ∷ rest) = inr (a, rest, refl)

module _ {Work : Type 0} (E : Environment Work) (arrived : E.World → List (Job Work)) where
  -- Where only jobs fail, no exception leaves the tries of a job.
  attempt_calm :
      (fuel : ℕ) (job : Job Work) (s : State E)
      → IsCalm E
      → (t : State E) × (attempt E fuel job s ≡ goes_on t)
  unfolding attempt
  attempt_calm zero job s calm = (s, refl)
  attempt_calm (suc fuel) job s calm = elim (dec_le s.retries max_retries) [
    | yes h ↦ rw (attempt_step E fuel job s h) (elim (Bool-cases (E.go job s.world).success) [
      | inl e ↦ rw (attempt_once_ok E job s e) (_, refl)
      | inr e ↦
          rw (once_again E arrived job s e (calm.reconnect _))
            (attempt_calm fuel job (retried E arrived job s) calm)
    ])
    | no h ↦ (s, attempt_exhausted E (suc fuel) job s (omega arith))
  ]

  module _ (logged : IsLogged E arrived) (first : List (Job Work)) where
    abbrev RoundFine : ℕ → Round E → Type 0
    RoundFine n (breaks t) = IsOrdered E arrived first n t × (t.worker.queue ≡ [])
    RoundFine n (repeats t) = IsOrdered E arrived first n t
    RoundFine n (throws t) = IsOrdered E arrived first n t × (¬ IsCalm E)

    asleep-IsOrdered :
        (n : ℕ) (s : State E) (w : Worker Work)
        → IsOrdered E arrived first n s
        → w.queue ≡ s.worker.queue ++ (E.wait s.world).arrivals
        → IsOrdered E arrived first n (record (asleep E s) { worker = w })
    unfolding waited
    asleep-IsOrdered n s w o e =
        waited-IsOrdered E arrived first n s (record (asleep E s) { worker = w }) o
          ((E.wait s.world).arrivals, e, logged.wait s.world) refl refl

    idle_round-RoundFine :
        (n : ℕ) (s : State E) → IsOrdered E arrived first n s → RoundFine n (idle_round E s)
    unfolding idle_round waited set_state
    idle_round-RoundFine n s o = elim (Bool-cases (E.wait s.world).success) [
      | inl e ↦ elim (Bool-cases (has_more_jobs (asleep E s).worker)) [
        | inl f ↦ rw (e, f) (asleep-IsOrdered n s (set_state (asleep E s).worker working) o refl)
        | inr f ↦
            rw (e, f)
              (
                asleep-IsOrdered n s (set_state (asleep E s).worker dead) o refl,
                has_more_jobs-nil (asleep E s).worker f,
              )
      ]
      | inr e ↦
          rw e (asleep-IsOrdered n s (asleep E s).worker o refl, λ calm. cc (calm.wait s.world, e))
    ]

    end_round-RoundFine :
        (n : ℕ) (s : State E)
        → IsOrdered E arrived first n s
        → RoundFine n (end_round E (goes_on s))
    unfolding end_round
    end_round-RoundFine n s o = elim (Bool-cases (has_more_jobs s.worker)) [
      | inl e ↦ rw e o
      | inr e ↦ rw e (idle_round-RoundFine n s o)
    ]

    tried-RoundFine :
        (n : ℕ) (job : Job Work) (s : State E) (o : Outcome E)
        → attempt E 4 job s ≡ o
        → IsOrdered E arrived first n (last_state E o)
        → RoundFine n (end_round E o)
    unfolding end_round
    tried-RoundFine n job s (goes_on t) e o = end_round-RoundFine n t o
    tried-RoundFine n job s (fails t) e o = (o, λ calm. cc ((attempt_calm 4 job s calm).1, e))

    job_round-RoundFine :
        (n : ℕ) (s : State E) (job : Job Work) (rest : List (Job Work))
        → IsOrdered E arrived first n s
        → s.worker.queue ≡ job ∷ rest
        → RoundFine (suc n) (job_round E s)
    job_round-RoundFine n s job rest o e =
        let s' = without_first E s rest in
        rw (job_round_cons E s job rest e) (
          tried-RoundFine (suc n) job s' (attempt E 4 job s') refl (
            taken_next E arrived first n job rest s'.worker s (last_state E (attempt E 4 job s')) o
              e refl (attempt-Ran E arrived logged 4 job s')))

    abbrev WorkFine : Outcome E → Type 0
    WorkFine (goes_on t) = (n : ℕ) × IsOrdered E arrived first n t × (t.worker.queue ≡ [])
    WorkFine (fails t) = (n : ℕ) × IsOrdered E arrived first n t × (¬ IsCalm E)

    counted :
        (bound n : ℕ) (s : State E)
        → ((w : E.World) → length (arrived w) ≤ bound)
        → IsOrdered E arrived first n s
        → n + length s.worker.queue ≤ length first + bound
    counted bound n s few o = omega (
      arith,
      ap length o.split,
      length-append first (arrived s.world),
      length-append o.taken s.worker.queue,
      few s.world,
      o.count,
    )

    -- One round that ends the loop, or goes on.
    after_round :
        (fuel n : ℕ) (s : State E) (job : Job Work) (rest : List (Job Work)) (r : Round E)
        → s.worker.queue ≡ job ∷ rest
        → job_round E s ≡ r
        → RoundFine n r
        → ((t : State E)
            → IsOrdered E arrived first n t
            → (o : Outcome E) × (work E fuel t ≡ some o) × WorkFine o)
        → (o : Outcome E) × (work E (suc fuel) s ≡ some o) × WorkFine o
    unfolding work has_more_jobs
    after_round fuel n s job rest (breaks t) e f (o, left) later =
        (goes_on t, ground arith, (n, o, left))
    after_round fuel n s job rest (repeats t) e f o later =
        let (u, g, fine) = later t o in (u, work_repeats E fuel s t job rest e f ∙ g, fine)
    after_round fuel n s job rest (throws t) e f (o, lost) later =
        (fails t, ground arith, (n, o, lost))

    -- The outer loop ends before the fuel does, as every round takes one of a bounded number of jobs.
    work_served :
        (bound : ℕ) (few : (w : E.World) → length (arrived w) ≤ bound) (fuel n : ℕ) (s : State E)
        → length first + bound < fuel + n
        → IsOrdered E arrived first n s
        → (o : Outcome E) × (work E fuel s ≡ some o) × WorkFine o
    work_served bound few zero n s h o = absurd (omega (arith, counted bound n s few o))
    work_served bound few (suc fuel) n s h o = elim (List-cases s.worker.queue) [
      | inl e ↦ (goes_on s, work_stop E fuel s e, (n, o, e))
      | inr (job, rest, e) ↦
          after_round fuel (suc n) s job rest (job_round E s) e refl
            (job_round-RoundFine n s job rest o e)
            (λ t. work_served bound few fuel (suc n) t (omega arith))
    ]

  abbrev Left : Outcome E → List (Job Work) → Type 0
  Left o first =
      (taken : List (Job Work)) × (first ++ arrived (last_state E o).world
        ≡ taken ++ (last_state E o).worker.queue)
      × Runs taken (last_state E o).tried (last_state E o).finished
      × (IsCalm E → (last_state E o).worker.queue ≡ [])

  WorkFine-Left :
      (logged : IsLogged E arrived) (first : List (Job Work)) (o : Outcome E)
      → WorkFine logged first o
      → Left o first
  WorkFine-Left logged first (goes_on t) (n, o, left) = (o.taken, o.split, o.runs, λ calm. left)
  WorkFine-Left logged first (fails t) (n, o, lost) =
      (o.taken, o.split, o.runs, λ calm. absurd (lost calm))

  begun_split :
      (w : Worker Work) (world : E.World)
      → IsLogged E arrived
      → arrived world ≡ []
      → w.queue ++ arrived (begun E w world).world ≡ (begun E w world).worker.queue
  unfolding waited set_state
  begun_split w world logged none_yet =
      ap (λ l. w.queue ++ l)
        (logged.connect world ∙ ap (λ l. l ++ (E.connect world).arrivals) none_yet)

  begun-IsOrdered :
      (w : Worker Work) (world : E.World)
      → IsLogged E arrived
      → arrived world ≡ []
      → IsOrdered E arrived w.queue 0 (begun E w world)
  unfolding waited
  begun-IsOrdered w world logged none_yet = record {
    taken = [];
    count = refl;
    split = begun_split w world logged none_yet;
    runs = Runs.nothing_yet;
  }

  closed_split :
      (logged : IsLogged E arrived) (first taken : List (Job Work)) (t : State E)
      → first ++ arrived t.world ≡ taken ++ t.worker.queue
      → first ++ arrived (leave_scope E t).world ≡ taken ++ (leave_scope E t).worker.queue
  unfolding leave_scope waited end_sentry
  closed_split logged first taken t split =
      let more = (E.close t.world).arrivals in
      ap (λ l. first ++ l) (logged.close t.world)
      ∙ sym (append_assoc first (arrived t.world) more)
      ∙ ap (λ l. l ++ more) split
      ∙ append_assoc taken t.worker.queue more

  -- Where the connection could not be made.
  abbrev ended_at_once : State E → State E
  ended_at_once s = record s { worker = end_sentry s.worker }

  start_work_lost :
      (w : Worker Work) (world : E.World)
      → (E.connect world).success ≡ false
      → start_work E w world ≡ fails (begun E w world)
  unfolding start_work
  start_work_lost w world h = rw h refl

  do_work_ends :
      (fuel : ℕ) (w : Worker Work) (world : E.World) (s : State E) (o : Outcome E)
      → start_work E w world ≡ goes_on s
      → work E fuel s ≡ some o
      → do_work E fuel w world ≡ some (leave_scope E (last_state E o))
  unfolding do_work
  do_work_ends fuel w world s o h k = rw (h, do_work, k) refl

  -- Whatever fails and whatever others queue meanwhile, as long as that is at most `bound` jobs in all,
  -- fuel above their number and that of the jobs queued at the start is enough: the worker ends, dead.
  -- It has taken jobs from the front of the line (those queued at the start, then those that arrived,
  -- in that order), and the others are still queued. Each job taken was tried at most four times in
  -- a row, before the next was tried, and was counted as finished only after a try. If only jobs fail,
  -- the jobs that are left in the queue are those that arrived during the last wait, in which the
  -- connection is closed.
  pub do_work_served :
      (bound fuel : ℕ) (w : Worker Work) (world : E.World)
      → IsLogged E arrived
      → ((v : E.World) → length (arrived v) ≤ bound)
      → arrived world ≡ []
      → length w.queue + bound < fuel
      → (t : State E) × (do_work E fuel w world ≡ some t)
        × (t.worker.state ≡ dead)
        × (taken : List (Job Work)) × (w.queue ++ arrived t.world ≡ taken ++ t.worker.queue)
        × Runs taken t.tried t.finished
        × (IsCalm E
            → (v : E.World) × (t.worker.queue ≡ (E.close v).arrivals)
              × (t.world ≡ (E.close v).world))
  unfolding do_work leave_scope end_sentry waited
  do_work_served bound fuel w world logged few none_yet h =
      let s = begun E w world in
      elim (Bool-cases (E.connect world).success) [
        | inl e ↦
            let (u, g, fine) =
              work_served logged w.queue bound few fuel 0 s (omega arith)
                (begun-IsOrdered w world logged none_yet) in
            let t = last_state E u in
            let (taken, split, runs, empty) = WorkFine-Left logged w.queue u fine in
            (
              leave_scope E t,
              do_work_ends fuel w world s u (start_work_ok E w world e) g,
              refl,
              taken,
              closed_split logged w.queue taken t split,
              runs,
              λ calm. (t.world, ap (λ q. q ++ (E.close t.world).arrivals) (empty calm), refl),
            )
        | inr e ↦ (
          ended_at_once s,
          rw (do_work, start_work_lost w world e) refl,
          refl,
          [],
          begun_split w world logged none_yet,
          Runs.nothing_yet,
          λ calm. absurd (cc (calm.connect world, e)),
        )
      ]
