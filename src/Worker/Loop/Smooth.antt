-- ===== src/Worker/Loop/Smooth.antt =====
-- `doWork` of src/Worker.cpp on a queue of jobs that succeed.
use cdnalizerd.Base.{
  ℕ, zero, suc, ◌<◌, ◌≡◌, refl, sym, ap, ◌∙◌, true, List, [], ◌∷◌, ◌++◌, some, arith, length, Each,
  append_assoc, append-nil,
}
use cdnalizerd.Job.{Job}
use cdnalizerd.Worker.{Worker, dead, set_state, end_sentry}
use cdnalizerd.Worker.Loop.{
  Environment, State, goes_on, waited, leave_scope, attempt, end_round, work, do_work,
}
use cdnalizerd.Worker.Loop.Tries.{IsQuiet, succeeded, attempt_step, attempt_once_ok}
use cdnalizerd.Worker.Loop.Laws.{
  without_first, slept, job_round_cons, end_round_more, end_round_last, work_stop, work_breaks,
  work_repeats, slept_queue, begun, closed_queue, start_work_ok, do_work_goes_on,
}

module _ {Work : Type 0} (E : Environment Work) where
  abbrev pub IsSmooth : Job Work → Type 0
  IsSmooth j = (x : E.World) → (E.go j x).success ≡ true

  -- The world after jobs that run once each, and the wait behind the last one.
  abbrev after_jobs : List (Job Work) → E.World → E.World
  after_jobs [] x = x
  after_jobs (j ∷ []) x = (E.wait (E.go j x).world).world
  after_jobs (j ∷ k ∷ js) x = after_jobs (k ∷ js) (E.go j x).world

  -- What the loop leaves of a queue of such jobs.
  record Passed (js : List (Job Work)) (s t : State E) : Type 0 where
    queue : t.worker.queue ≡ []
    retries : t.retries ≡ 0
    world : t.world ≡ after_jobs js s.world
    tried : t.tried ≡ s.tried ++ js
    finished : t.finished ≡ s.finished ++ js

  module _ (q : IsQuiet E) where
    attempt_smooth :
        (j : Job Work) (s : State E)
        → s.retries ≡ 0
        → IsSmooth j
        → attempt E 4 j s ≡ goes_on (succeeded E j s)
    attempt_smooth j s r f =
        rw (attempt_step E 3 j s (omega arith), attempt_once_ok E j s (f s.world)) refl

    left_over :
        (j : Job Work) (js : List (Job Work)) (s : State E)
        → (succeeded E j (without_first E s js)).worker.queue ≡ js
    unfolding waited
    left_over j js s = rw (q.go j s.world) (append-nil js)

    work_smooth :
        (js : List (Job Work)) (fuel : ℕ) (s : State E)
        → s.worker.queue ≡ js
        → s.retries ≡ 0
        → length js < fuel
        → Each IsSmooth js
        → (t : State E) × (work E fuel s ≡ some (goes_on t)) × Passed js s t
    unfolding waited set_state
    work_smooth js zero s e r h f = elim h [ ]
    work_smooth [] (suc fuel) s e r h f = (
      s,
      work_stop E fuel s e,
      record {
        queue = e;
        retries = r;
        world = refl;
        tried = sym (append-nil s.tried);
        finished = sym (append-nil s.finished);
      },
    )
    work_smooth (j ∷ []) (suc fuel) s e r h f =
        let t = succeeded E j (without_first E s []) in
        let left = left_over j [] s in
        (
          slept E t,
          work_breaks E fuel s (slept E t) j [] e (
              job_round_cons E s j [] e
              ∙ ap (end_round E) (attempt_smooth j (without_first E s []) r f.0)
              ∙ end_round_last E q t left),
          record {
            queue = slept_queue E q t left;
            retries = r;
            world = refl;
            tried = refl;
            finished = refl;
          },
        )
    work_smooth (j ∷ k ∷ js) (suc fuel) s e r h f =
        let t = succeeded E j (without_first E s (k ∷ js)) in
        let left = left_over j (k ∷ js) s in
        let (u, o, p) = work_smooth (k ∷ js) fuel t left r (omega arith) f.1 in
        (
          u,
          work_repeats E fuel s t j (k ∷ js) e (
                job_round_cons E s j (k ∷ js) e
                ∙ ap (end_round E) (attempt_smooth j (without_first E s (k ∷ js)) r f.0)
                ∙ end_round_more E t k js left)
              ∙ o,
          record {
            queue = p.queue;
            retries = p.retries;
            world = p.world;
            tried = p.tried ∙ append_assoc s.tried (j ∷ []) (k ∷ js);
            finished = p.finished ∙ append_assoc s.finished (j ∷ []) (k ∷ js);
          },
        )

  -- In an environment in which nobody adds jobs while the worker runs, and for a queue of jobs that
  -- succeed, fuel above the length of the queue is enough: each job is tried once, in order, and
  -- finishes; no retry is counted; and the world is as the jobs, the last wait and the shutdown of the
  -- connection leave it.
  pub do_work_smooth :
      (fuel : ℕ) (w : Worker Work) (world : E.World)
      → IsQuiet E
      → length w.queue < fuel
      → Each IsSmooth w.queue
      → (t : State E) × (do_work E fuel w world ≡ some t)
        × (t.worker.state ≡ dead)
        × (t.worker.queue ≡ [])
        × (t.tried ≡ w.queue)
        × (t.finished ≡ w.queue)
        × (t.retries ≡ 0)
        × (t.world ≡ (E.close (after_jobs w.queue (E.connect world).world)).world)
  unfolding leave_scope waited set_state end_sentry
  do_work_smooth fuel w world q h f =
      let s = begun E w world in
      let (t, r, p) =
        work_smooth q w.queue fuel s (rw ((q.connect world).1, append-nil) refl) refl h f in
      (
        leave_scope E t,
        do_work_goes_on E fuel w world s t (start_work_ok E w world (q.connect world).0) r,
        refl,
        closed_queue E q t p.queue,
        p.tried,
        p.finished,
        p.retries,
        ap (λ x. (E.close x).world) p.world,
      )
