-- ===== src/Worker/Loop/Arrivals.antt =====
-- `doWork` of src/Worker.cpp while others add jobs and anything fails: what one wait, and the tries of
-- one job, leave.
pub mod FirstIn
pub mod Served
use cdnalizerd.Base.{
  ℕ, zero, suc, ◌+◌, ◌≤◌, ◌<◌, ◌≡◌, ◌⊎◌, inl, inr, refl, ap, sym, ◌∙◌, Bool, true, false, List, [],
  ◌∷◌, ◌++◌, arith, leb, replicate, append-nil, append_assoc, Bool-cases, if◌then◌else◌,
}
use native.Mathlib.Decide.{dec_le}
use cdnalizerd.Job.{Job}
use cdnalizerd.Worker.Loop.Tries.{
  started, succeeded, attempt_once_ok, attempt_step, attempt_exhausted,
}
use cdnalizerd.Worker.Loop.{
  Environment, Reply, max_retries, State, Outcome, goes_on, fails, Round, breaks, repeats, throws,
  waited, after_failure, attempt_once, attempt, last_state,
}

-- The world knows which jobs others have queued so far: `arrived` is what it has seen.
pub record IsLogged {Work : Type 0} (E : Environment Work) (arrived : E.World → List (Job Work))
    : Type 0 where
  pub connect : (w : E.World) → arrived (E.connect w).world ≡ arrived w ++ (E.connect w).arrivals
  pub go :
      (j : Job Work) (w : E.World) → arrived (E.go j w).world ≡ arrived w ++ (E.go j w).arrivals
  pub reconnect :
      (w : E.World) → arrived (E.reconnect w).world ≡ arrived w ++ (E.reconnect w).arrivals
  pub wait : (w : E.World) → arrived (E.wait w).world ≡ arrived w ++ (E.wait w).arrivals
  pub close : (w : E.World) → arrived (E.close w).world ≡ arrived w ++ (E.close w).arrivals

module _ {Work : Type 0} (E : Environment Work) (arrived : E.World → List (Job Work)) where
  -- What arrived from one state to the next stands at the end of the queue.
  abbrev pub Queued : State E → State E → Type 0
  Queued s t =
      (more : List (Job Work)) × (t.worker.queue ≡ s.worker.queue ++ more)
      × (arrived t.world ≡ arrived s.world ++ more)

  pub Queued-trans : (s t u : State E) → Queued s t → Queued t u → Queued s u
  Queued-trans s t u (more, q, l) (further, r, m) = (
    more ++ further,
    r ∙ ap (λ x. x ++ further) q ∙ append_assoc s.worker.queue more further,
    m ∙ ap (λ x. x ++ further) l ∙ append_assoc (arrived s.world) more further,
  )

  pub Queued-refl : (s : State E) → Queued s s
  Queued-refl s = ([], sym (append-nil s.worker.queue), sym (append-nil (arrived s.world)))

  -- The tries of a job: at most `n`, and if it finished, at least one.
  pub record Ran (n : ℕ) (job : Job Work) (s t : State E) : Type 0 where
    pub queued : Queued s t
    pub tries : ℕ
    pub few : tries ≤ n
    pub tried : t.tried ≡ s.tried ++ replicate tries job
    pub finished : (t.finished ≡ s.finished) ⊎ ((0 < tries) × (t.finished ≡ s.finished ++ job ∷ []))

  -- The state in which a round ends.
  abbrev pub state_of : Round E → State E
  state_of (breaks s) = s
  state_of (repeats s) = s
  state_of (throws s) = s

  Ran-none : (n : ℕ) (job : Job Work) (s : State E) → Ran n job s s
  Ran-none n job s = record {
    queued = Queued-refl s;
    tries = 0;
    few = omega arith;
    tried = sym (append-nil s.tried);
    finished = inl refl;
  }

  -- One try that does not finish the job, and the tries behind it.
  Ran-suc :
      (n : ℕ) (job : Job Work) (s t u : State E)
      → Queued s t
      → t.tried ≡ s.tried ++ job ∷ []
      → t.finished ≡ s.finished
      → Ran n job t u
      → Ran (suc n) job s u
  Ran-suc n job s t u q e f r = record {
    queued = Queued-trans s t u q r.queued;
    tries = suc r.tries;
    few = omega (arith, r.few);
    tried =
        r.tried
        ∙ ap (λ x. x ++ replicate r.tries job) e
        ∙ append_assoc s.tried (job ∷ []) (replicate r.tries job);
    finished = elim r.finished [
      | inl g ↦ inl (g ∙ f)
      | inr (some_try, g) ↦ inr (omega arith, g ∙ ap (λ x. x ++ job ∷ []) f)
    ];
  }

  -- After the reconnection behind a try that failed.
  abbrev reconnected : Job Work → State E → State E
  reconnected job s = let s' = started E job s in waited E s' (E.reconnect s'.world)

  abbrev pub retried : Job Work → State E → State E
  retried job s = record (reconnected job s) { retries = (reconnected job s).retries + 1 }

  pub once_again :
      (job : Job Work) (s : State E)
      → (E.go job s.world).success ≡ false
      → (E.reconnect (started E job s).world).success ≡ true
      → attempt_once E job s ≡ repeats (retried job s)
  unfolding attempt_once after_failure waited
  once_again job s e f = rw (e, f) refl

  once_lost :
      (job : Job Work) (s : State E)
      → (E.go job s.world).success ≡ false
      → (E.reconnect (started E job s).world).success ≡ false
      → attempt_once E job s ≡ throws (reconnected job s)
  unfolding attempt_once after_failure waited
  once_lost job s e f = rw (e, f) refl

  module _ (logged : IsLogged E arrived) where
    started-Queued : (job : Job Work) (s : State E) → Queued s (started E job s)
    unfolding waited
    started-Queued job s = ((E.go job s.world).arrivals, refl, logged.go job s.world)

    reconnected-Queued : (job : Job Work) (s : State E) → Queued s (reconnected job s)
    unfolding waited
    reconnected-Queued job s =
        let s' = started E job s in
        Queued-trans s s' (reconnected job s) (started-Queued job s)
          ((E.reconnect s'.world).arrivals, refl, logged.reconnect s'.world)

    once-Ran :
        (fuel : ℕ) (job : Job Work) (s : State E)
        → ((t : State E) → Ran fuel job t (last_state E (attempt E fuel job t)))
        → Ran (suc fuel) job s (
            last_state E (elim (attempt_once E job s) [
              | breaks t ↦ goes_on t
              | repeats t ↦ attempt E fuel job t
              | throws t ↦ fails t
            ]))
    unfolding waited
    once-Ran fuel job s later = elim (Bool-cases (E.go job s.world).success) [
      | inl e ↦ rw (attempt_once_ok E job s e) (record {
        queued = started-Queued job s;
        tries = 1;
        few = omega arith;
        tried = refl;
        finished = inr (omega arith, refl);
      })
      | inr e ↦ elim (Bool-cases (E.reconnect (started E job s).world).success) [
        | inl f ↦ rw (once_again job s e f) (
            Ran-suc fuel job s (retried job s) _ (reconnected-Queued job s) refl refl
              (later (retried job s)))
        | inr f ↦ rw (once_lost job s e f) (
            Ran-suc fuel job s (reconnected job s) (reconnected job s) (reconnected-Queued job s)
              refl refl (Ran-none fuel job (reconnected job s)))
      ]
    ]

    -- The inner loop, whatever fails: the job is tried at most as often as there is fuel.
    pub attempt-Ran :
        (fuel : ℕ) (job : Job Work) (s : State E)
        → Ran fuel job s (last_state E (attempt E fuel job s))
    unfolding attempt
    attempt-Ran zero job s = Ran-none zero job s
    attempt-Ran (suc fuel) job s = elim (dec_le s.retries max_retries) [
      | yes h ↦ rw (attempt_step E fuel job s h) (once-Ran fuel job s (attempt-Ran fuel job))
      | no h ↦ rw (attempt_exhausted E (suc fuel) job s (omega arith)) (Ran-none (suc fuel) job s)
    ]
