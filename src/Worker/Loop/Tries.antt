-- ===== src/Worker/Loop/Tries.antt =====
-- What the inner loop of `doWork` (src/Worker.cpp) does with one job.
use cdnalizerd.Base.{
  ℕ, zero, suc, ◌+◌, ◌≤◌, ◌<◌, ◌≡◌, inl, inr, refl, ap, sym, ◌∙◌, Bool, true, false, [], ◌∷◌, ◌++◌,
  arith, length, length-append, replicate, ◌-◌, append-nil, append_assoc, Bool-cases, if◌then◌else◌,
}
use mathlib.Core.Bool.{false≢true}
use native.Mathlib.Decide.{dec_le}
use cdnalizerd.Job.{Job}
use cdnalizerd.Worker.Loop.{
  Environment, max_retries, State, goes_on, fails, breaks, repeats, throws, waited, after_failure,
  attempt_once, attempt,
}

-- An environment in which nobody else adds jobs while the worker runs, and only jobs fail.
pub record IsQuiet {Work : Type 0} (E : Environment Work) : Type 0 where
  pub connect : (w : E.World) → ((E.connect w).success ≡ true) × ((E.connect w).arrivals ≡ [])
  pub go : (j : Job Work) (w : E.World) → (E.go j w).arrivals ≡ []
  pub reconnect : (w : E.World) → ((E.reconnect w).success ≡ true) × ((E.reconnect w).arrivals ≡ [])
  pub wait : (w : E.World) → ((E.wait w).success ≡ true) × ((E.wait w).arrivals ≡ [])
  pub close : (w : E.World) → (E.close w).arrivals ≡ []

-- What one try of a job leaves, when nothing arrives: the queue as it was, and either the job
-- finished or one more retry counted.
record Tried {Work : Type 0} (E : Environment Work) (job : Job Work) (s t : State E) (done : Bool)
    : Type 0 where
  worker : t.worker ≡ s.worker
  tried : t.tried ≡ s.tried ++ job ∷ []
  finished : t.finished ≡ (if done then s.finished ++ job ∷ [] else s.finished)
  retries : t.retries ≡ (if done then s.retries else s.retries + 1)

none_left : {r : ℕ} → 4 ≤ r → 4 - r ≡ 0
none_left h = omega arith

some_left : {r : ℕ} → r ≤ 3 → suc (4 - (r + 1)) ≡ 4 - r
some_left h = omega arith

module _ {Work : Type 0} (E : Environment Work) where
  -- When the retries are used up, a job is not started.
  pub attempt_exhausted :
      (fuel : ℕ) (job : Job Work) (s : State E)
      → max_retries < s.retries
      → attempt E fuel job s ≡ goes_on s
  unfolding attempt
  attempt_exhausted zero job s h = refl
  attempt_exhausted (suc fuel) job s h = ground arith

  pub attempt_step :
      (fuel : ℕ) (job : Job Work) (s : State E)
      → s.retries ≤ max_retries
      → attempt E (suc fuel) job s ≡ elim (attempt_once E job s) [
        | breaks t ↦ goes_on t
        | repeats t ↦ attempt E fuel job t
        | throws t ↦ fails t
      ]
  unfolding attempt
  attempt_step fuel job s h = ground arith

  abbrev pub started : Job Work → State E → State E
  started job s = record (waited E s (E.go job s.world)) { tried = s.tried ++ job ∷ [] }

  abbrev pub succeeded : Job Work → State E → State E
  succeeded job s = record (started job s) { finished = s.finished ++ job ∷ [] }

  abbrev retried : Job Work → State E → State E
  retried job s =
      let t = started job s in record (waited E t (E.reconnect t.world)) { retries = s.retries + 1 }

  pub attempt_once_ok :
      (job : Job Work) (s : State E)
      → (E.go job s.world).success ≡ true
      → attempt_once E job s ≡ breaks (succeeded job s)
  unfolding attempt_once
  attempt_once_ok job s h = rw h refl

  attempt_once_bad :
      (job : Job Work) (s : State E)
      → (E.go job s.world).success ≡ false
      → ((w : E.World) → (E.reconnect w).success ≡ true)
      → attempt_once E job s ≡ repeats (retried job s)
  unfolding attempt_once
  attempt_once_bad job s h k = rw (h, after_failure, k (started job s).world) refl

  no_tries :
      (job : Job Work) (s : State E)
      → 4 ≤ s.retries
      → s.tried ≡ s.tried ++ replicate (4 - s.retries) job
  no_tries job s h = rw (none_left h, append-nil) refl

  one_more :
      (job : Job Work) (s : State E)
      → s.retries ≤ 3
      → (s.tried ++ job ∷ []) ++ replicate (4 - (s.retries + 1)) job
        ≡ s.tried ++ replicate (4 - s.retries) job
  one_more job s h =
      append_assoc s.tried (job ∷ []) (replicate (4 - (s.retries + 1)) job)
      ∙ ap (λ n. s.tried ++ replicate n job) (some_left h)

  module _ (q : IsQuiet E) where
    succeeded-Tried : (job : Job Work) (s : State E) → Tried E job s (succeeded job s) true
    unfolding waited
    succeeded-Tried job s = record {
      worker = rw (q.go job s.world, append-nil) refl;
      tried = refl;
      finished = refl;
      retries = refl;
    }

    retried-Tried : (job : Job Work) (s : State E) → Tried E job s (retried job s) false
    unfolding waited
    retried-Tried job s = record {
      worker = rw (q.go job s.world, (q.reconnect _).1, append-nil, append-nil) refl;
      tried = refl;
      finished = refl;
      retries = refl;
    }

    -- What all tries of one job leave: the queue as it was, each try accounted for as a finished job
    -- or a retry, and the job finished unless the retries are used up.
    pub record Attempted (job : Job Work) (s t : State E) : Type 0 where
      pub worker : t.worker ≡ s.worker
      pub count :
          length t.tried + length s.finished + s.retries
          ≡ length s.tried + length t.finished + t.retries
      pub grows : s.retries ≤ t.retries
      pub bound : t.retries ≤ 4
      pub finished : t.retries ≤ 3 → t.finished ≡ s.finished ++ job ∷ []
      pub dropped : s.retries ≡ 4 → (t.tried ≡ s.tried) × (t.finished ≡ s.finished)
      pub failing :
          ((x : E.World) → (E.go job x).success ≡ false)
          → (t.finished ≡ s.finished)
            × (t.tried ≡ s.tried ++ replicate (4 - s.retries) job)
            × (t.retries ≡ 4)

    pub attempt-Attempted :
        (fuel : ℕ) (job : Job Work) (s : State E)
        → s.retries ≤ 4
        → 4 ≤ s.retries + fuel
        → (t : State E) × (attempt E fuel job s ≡ goes_on t) × Attempted job s t
    unfolding waited
    attempt-Attempted zero job s h k = (
      s,
      attempt_exhausted zero job s (omega arith),
      record {
        worker = refl;
        count = refl;
        grows = omega arith;
        bound = h;
        finished = λ l. absurd (omega arith);
        dropped = λ e. (refl, refl);
        failing = λ f. (refl, no_tries job s (omega arith), omega arith);
      },
    )
    attempt-Attempted (suc fuel) job s h k = elim (dec_le s.retries 3) [
      | no used ↦ (
        s,
        attempt_exhausted (suc fuel) job s (omega arith),
        record {
          worker = refl;
          count = refl;
          grows = omega arith;
          bound = h;
          finished = λ l. absurd (omega arith);
          dropped = λ e. (refl, refl);
          failing = λ f. (refl, no_tries job s (omega arith), omega arith);
        },
      )
      | yes left ↦ elim (Bool-cases (E.go job s.world).success) [
        | inl ok ↦
            let v = succeeded-Tried job s in
            (
              succeeded job s,
              rw (attempt_step fuel job s left, attempt_once_ok job s ok) refl,
              record {
                worker = v.worker;
                count =
                    omega (
                      arith,
                      length-append s.tried (job ∷ []),
                      length-append s.finished (job ∷ []),
                    );
                grows = omega arith;
                bound = h;
                finished = λ l. refl;
                dropped = λ e. absurd (omega arith);
                failing = λ f. absurd (false≢true (sym (f s.world) ∙ ok));
              },
            )
        | inr bad ↦
            let v = retried-Tried job s in
            let (t, e, w) =
              attempt-Attempted fuel job (retried job s) (omega arith) (omega arith) in
            (
              t,
              rw (attempt_step fuel job s left, attempt_once_bad job s bad (λ x. (q.reconnect x).0))
                  e,
              record {
                worker = w.worker ∙ v.worker;
                count = omega (arith, w.count, length-append s.tried (job ∷ []));
                grows = omega (arith, w.grows);
                bound = w.bound;
                finished = w.finished;
                dropped = λ e. absurd (omega arith);
                failing = λ f. let (g, k, b) = w.failing f in (g, k ∙ one_more job s left, b);
              },
            )
      ]
    ]
