-- ===== src/Worker/Loop/Laws.antt =====
-- What the loops of `doWork` (src/Worker.cpp) do with the whole queue.
use cdnalizerd.Base.{
  ℕ, zero, suc, ◌+◌, ◌≤◌, ◌<◌, ◌≡◌, refl, ap, sym, ◌∙◌, true, false, List, [], ◌∷◌, ◌++◌, some,
  arith, length, replicate, ◌-◌, append-nil, append_assoc,
}
use cdnalizerd.Job.{Job}
use cdnalizerd.Worker.{
  Worker, working, idle, dead, has_more_jobs, get_next_job, set_state, end_sentry,
}
use cdnalizerd.Worker.Loop.{
  Environment, State, goes_on, breaks, repeats, waited, leave_scope, attempt, idle_round, end_round,
  job_round, work, start_work, do_work,
}
use cdnalizerd.Worker.Loop.Tries.{IsQuiet, Attempted, attempt-Attempted}

module _ {Work : Type 0} (E : Environment Work) where
  abbrev pub without_first : State E → List (Job Work) → State E
  without_first s rest = record s { worker = record (s.worker) { queue = rest } }

  pub job_round_cons :
      (s : State E) (j : Job Work) (js : List (Job Work))
      → s.worker.queue ≡ j ∷ js
      → job_round E s ≡ end_round E (attempt E 4 j (without_first s js))
  unfolding job_round get_next_job
  job_round_cons s j js e = rw e refl

  pub end_round_more :
      (t : State E) (j : Job Work) (js : List (Job Work))
      → t.worker.queue ≡ j ∷ js
      → end_round E (goes_on t) ≡ repeats t
  unfolding end_round has_more_jobs
  end_round_more t j js e = rw e (ground arith)

  -- After the idle second, and with no work behind it.
  abbrev pub asleep : State E → State E
  asleep s = waited E (record s { worker = set_state s.worker idle }) (E.wait s.world)

  abbrev pub slept : State E → State E
  slept t = record (asleep t) { worker = set_state (asleep t).worker dead }

  pub work_stop :
      (fuel : ℕ) (s : State E) → s.worker.queue ≡ [] → work E (suc fuel) s ≡ some (goes_on s)
  unfolding work has_more_jobs
  work_stop fuel s e = rw e refl

  pub work_breaks :
      (fuel : ℕ) (s t : State E) (j : Job Work) (js : List (Job Work))
      → s.worker.queue ≡ j ∷ js
      → job_round E s ≡ breaks t
      → work E (suc fuel) s ≡ some (goes_on t)
  unfolding work has_more_jobs
  work_breaks fuel s t j js e r = ground arith

  pub work_repeats :
      (fuel : ℕ) (s t : State E) (j : Job Work) (js : List (Job Work))
      → s.worker.queue ≡ j ∷ js
      → job_round E s ≡ repeats t
      → work E (suc fuel) s ≡ work E fuel t
  unfolding work has_more_jobs
  work_repeats fuel s t j js e r = ground arith

  module _ (q : IsQuiet E) where
    pub end_round_last :
        (t : State E) → t.worker.queue ≡ [] → end_round E (goes_on t) ≡ breaks (slept t)
    unfolding end_round idle_round has_more_jobs waited set_state
    end_round_last t e = rw (e, (q.wait t.world).0, (q.wait t.world).1) refl

    -- A first job that always fails is tried four times, and nothing after it is started.
    abbrev Blocked : List (Job Work) → State E → State E → Type 0
    Blocked [] s t = Unit
    Blocked (j ∷ js) s t =
        s.retries ≡ 0
        → ((x : E.World) → (E.go j x).success ≡ false)
        → (t.tried ≡ s.tried ++ j ∷ j ∷ j ∷ j ∷ []) × (t.finished ≡ s.finished)

    -- What the outer loop leaves, with `js` in the queue at its start.
    record Worked (js : List (Job Work)) (s t : State E) : Type 0 where
      queue : t.worker.queue ≡ []
      count :
          length t.tried + length s.finished + s.retries
          ≡ length s.tried + length t.finished + t.retries
      grows : s.retries ≤ t.retries
      bound : t.retries ≤ 4
      finished : t.retries ≤ 3 → t.finished ≡ s.finished ++ js
      dropped : s.retries ≡ 4 → (t.tried ≡ s.tried) × (t.finished ≡ s.finished)
      blocked : Blocked js s t

    pub slept_queue : (t : State E) → t.worker.queue ≡ [] → (slept t).worker.queue ≡ []
    unfolding waited set_state
    slept_queue t e = rw (e, (q.wait t.world).1) refl

    slept-Worked : (t : State E) → t.worker.queue ≡ [] → t.retries ≤ 4 → Worked [] t (slept t)
    unfolding waited set_state
    slept-Worked t e b = record {
      queue = slept_queue t e;
      count = refl;
      grows = omega arith;
      bound = b;
      finished = λ l. sym (append-nil t.finished);
      dropped = λ d. (refl, refl);
      blocked = tt;
    }

    first-Worked :
        (s t u : State E) (j : Job Work) (js : List (Job Work))
        → Attempted E q j (without_first s js) t
        → Worked js t u
        → Worked (j ∷ js) s u
    first-Worked s t u j js a w = record {
      queue = w.queue;
      count = omega (arith, a.count, w.count);
      grows = omega (arith, a.grows, w.grows);
      bound = w.bound;
      finished = λ l.
          w.finished l
          ∙ ap (λ f. f ++ js) (a.finished (omega (arith, w.grows)))
          ∙ append_assoc s.finished (j ∷ []) js;
      dropped = λ d.
          let (a1, a2) = a.dropped d in
          let (w1, w2) = w.dropped (omega (arith, a.grows, a.bound)) in (w1 ∙ a1, w2 ∙ a2);
      blocked = λ z f.
          let (a1, a2, a3) = a.failing f in
          let (w1, w2) = w.dropped a3 in
          (w1 ∙ a2 ∙ ap (λ n. s.tried ++ replicate (4 - n) j) z, w2 ∙ a1);
    }

    work_quiet :
        (js : List (Job Work)) (fuel : ℕ) (s : State E)
        → s.worker.queue ≡ js
        → s.retries ≤ 4
        → length js < fuel
        → (t : State E) × (work E fuel s ≡ some (goes_on t)) × Worked js s t
    work_quiet js zero s e b h = elim h [ ]
    work_quiet [] (suc fuel) s e b h = (
      s,
      work_stop fuel s e,
      record {
        queue = e;
        count = refl;
        grows = omega arith;
        bound = b;
        finished = λ l. sym (append-nil s.finished);
        dropped = λ d. (refl, refl);
        blocked = tt;
      },
    )
    work_quiet (j ∷ []) (suc fuel) s e b h =
        let (t, r, a) = attempt-Attempted E q 4 j (without_first s []) b (omega arith) in
        let left = ap (λ w. w.queue) a.worker in
        (
          slept t,
          work_breaks fuel s (slept t) j [] e
              (job_round_cons s j [] e ∙ ap (end_round E) r ∙ end_round_last t left),
          first-Worked s t (slept t) j [] a (slept-Worked t left a.bound),
        )
    work_quiet (j ∷ k ∷ js) (suc fuel) s e b h =
        let (t, r, a) = attempt-Attempted E q 4 j (without_first s (k ∷ js)) b (omega arith) in
        let left = ap (λ w. w.queue) a.worker in
        let (u, o, w) = work_quiet (k ∷ js) fuel t left a.bound (omega arith) in
        (
          u,
          work_repeats fuel s t j (k ∷ js) e
                (job_round_cons s j (k ∷ js) e ∙ ap (end_round E) r ∙ end_round_more t k js left)
              ∙ o,
          first-Worked s t u j (k ∷ js) a w,
        )

  abbrev pub begun : Worker Work → E.World → State E
  begun w world =
      waited E
        (record {
          worker = set_state w working;
          retries = 0;
          world = world;
          tried = [];
          finished = [];
        })
        (E.connect world)

  pub start_work_ok :
      (w : Worker Work) (world : E.World)
      → (E.connect world).success ≡ true
      → start_work E w world ≡ goes_on (begun w world)
  unfolding start_work
  start_work_ok w world h = rw h refl

  pub do_work_goes_on :
      (fuel : ℕ) (w : Worker Work) (world : E.World) (s t : State E)
      → start_work E w world ≡ goes_on s
      → work E fuel s ≡ some (goes_on t)
      → do_work E fuel w world ≡ some (leave_scope E t)
  unfolding do_work
  do_work_goes_on fuel w world s t h k = rw (h, do_work, k) refl

  -- Nothing arrives while the connection is closed.
  pub closed_queue :
      (q : IsQuiet E) (s : State E) → s.worker.queue ≡ [] → (leave_scope E s).worker.queue ≡ []
  unfolding leave_scope waited end_sentry
  closed_queue q s e = rw (e, q.close s.world) refl

  -- In an environment in which nobody adds jobs while the worker runs, and only jobs fail, fuel above
  -- the length of the queue is enough: the worker ends dead with an empty queue. Each try of a job
  -- either finished it or counted one of at most four retries, and if fewer than four were counted,
  -- the jobs that finished are those of the queue, each once and in order.
  pub do_work_quiet :
      (fuel : ℕ) (w : Worker Work) (world : E.World)
      → IsQuiet E
      → length w.queue < fuel
      → (t : State E) × (do_work E fuel w world ≡ some t)
        × (t.worker.state ≡ dead)
        × (t.worker.queue ≡ [])
        × (length t.tried ≡ length t.finished + t.retries)
        × (t.retries ≤ 4)
        × (t.retries ≤ 3 → t.finished ≡ w.queue)
  unfolding leave_scope waited set_state end_sentry
  do_work_quiet fuel w world q h =
      let s = begun w world in
      let (t, r, v) =
        work_quiet q w.queue fuel s (rw ((q.connect world).1, append-nil) refl) (omega arith) h in
      (
        leave_scope E t,
        do_work_goes_on fuel w world s t (start_work_ok w world (q.connect world).0) r,
        refl,
        closed_queue q t v.queue,
        omega (arith, v.count),
        v.bound,
        v.finished,
      )

  -- In the same environments, if the first job in the queue always fails, it is tried four times and
  -- then dropped, and no other job in the queue is ever started, though the queue ends empty.
  pub do_work_drops_all :
      (fuel : ℕ) (w : Worker Work) (world : E.World) (j : Job Work) (js : List (Job Work))
      → IsQuiet E
      → length w.queue < fuel
      → w.queue ≡ j ∷ js
      → ((x : E.World) → (E.go j x).success ≡ false)
      → (t : State E) × (do_work E fuel w world ≡ some t)
        × (t.worker.queue ≡ [])
        × (t.tried ≡ j ∷ j ∷ j ∷ j ∷ [])
        × (t.finished ≡ [])
  unfolding leave_scope waited set_state end_sentry
  do_work_drops_all fuel w world j js q h e f =
      let s = begun w world in
      let (t, r, v) =
        work_quiet q (j ∷ js) fuel s (rw ((q.connect world).1, append-nil) e) (omega arith)
          (rw e at h) in
      let (b, c) = v.blocked refl f in
      (
        leave_scope E t,
        do_work_goes_on fuel w world s t (start_work_ok w world (q.connect world).0) r,
        closed_queue q t v.queue,
        b,
        c,
      )
