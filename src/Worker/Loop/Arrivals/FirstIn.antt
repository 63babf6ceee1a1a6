-- ===== src/Worker/Loop/Arrivals/FirstIn.antt =====
-- `doWork` of src/Worker.cpp takes its jobs in the order in which they were queued, whatever arrives
-- meanwhile and whatever fails.
use cdnalizerd.Base.{
  ℕ, suc, ◌≤◌, ◌<◌, ◌≡◌, inl, inr, refl, ap, sym, ◌∙◌, true, false, List, [], ◌∷◌, ◌++◌, arith, ltb,
  length, length-append, replicate, append_assoc,
}
use cdnalizerd.Job.{Job}
use cdnalizerd.Worker.{Worker, has_more_jobs}
use cdnalizerd.Worker.Loop.{Environment, State}
use cdnalizerd.Worker.Loop.Arrivals.{Queued, Ran}

-- How jobs that were taken one after the other were tried, and which of them finished: each up to four
-- times in a row, and a job that finished at least once.
pub data Runs {Work : Type 0} : List (Job Work) → List (Job Work) → List (Job Work) → Type 0 where
  nothing_yet : Runs [] [] []
  finishes :
      {taken tried finished : List (Job Work)} (job : Job Work) (n : ℕ)
      → 0 < n
      → n ≤ 4
      → Runs taken tried finished
      → Runs (taken ++ job ∷ []) (tried ++ replicate n job) (finished ++ job ∷ [])
  gives_up :
      {taken tried finished : List (Job Work)} (job : Job Work) (n : ℕ)
      → n ≤ 4
      → Runs taken tried finished
      → Runs (taken ++ job ∷ []) (tried ++ replicate n job) finished

-- Only jobs fail.
pub record IsCalm {Work : Type 0} (E : Environment Work) : Type 0 where
  pub connect : (w : E.World) → (E.connect w).success ≡ true
  pub reconnect : (w : E.World) → (E.reconnect w).success ≡ true
  pub wait : (w : E.World) → (E.wait w).success ≡ true

pub has_more_jobs-nil : {Work : Type 0} (w : Worker Work) → has_more_jobs w ≡ false → w.queue ≡ []
unfolding has_more_jobs
has_more_jobs-nil {Work} w h = at w.queue h
  where
    at : (q : List (Job Work)) → ltb 0 (length q) ≡ false → q ≡ []
    at [] h = refl
    at (j ∷ q) h = ground arith

module _ {Work : Type 0} (E : Environment Work) (arrived : E.World → List (Job Work))
    (first : List (Job Work)) where
  -- `n` jobs were taken, from the front of those that were queued first and those that arrived; the
  -- others are still queued.
  pub record IsOrdered (n : ℕ) (s : State E) : Type 0 where
    pub taken : List (Job Work)
    pub count : length taken ≡ n
    pub split : first ++ arrived s.world ≡ taken ++ s.worker.queue
    pub runs : Runs taken s.tried s.finished

  pub taken_next :
      (n : ℕ) (job : Job Work) (rest : List (Job Work)) (w : Worker Work) (s t : State E)
      → IsOrdered n s
      → s.worker.queue ≡ job ∷ rest
      → w.queue ≡ rest
      → Ran E arrived 4 job (record s { worker = w }) t
      → IsOrdered (suc n) t
  taken_next n job rest w s t o e f r =
      let (more, queue, log) = r.queued in
      record {
        taken = o.taken ++ job ∷ [];
        count = omega (arith, length-append o.taken (job ∷ []), o.count);
        split =
            ap (λ x. first ++ x) log
            ∙ sym (append_assoc first (arrived s.world) more)
            ∙ ap (λ x. x ++ more) (o.split ∙ ap (λ x. o.taken ++ x) e)
            ∙ append_assoc o.taken (job ∷ rest) more
            ∙ sym (append_assoc o.taken (job ∷ []) (rest ++ more))
            ∙ ap (λ x. (o.taken ++ job ∷ []) ++ x) (sym (queue ∙ ap (λ x. x ++ more) f));
        runs = rw r.tried (elim r.finished [
          | inl g ↦ rw g (gives_up job r.tries r.few o.runs)
          | inr (some_try, g) ↦ rw g (finishes job r.tries some_try r.few o.runs)
        ]);
      }

  pub waited-IsOrdered :
      (n : ℕ) (s t : State E)
      → IsOrdered n s
      → Queued E arrived s t
      → t.tried ≡ s.tried
      → t.finished ≡ s.finished
      → IsOrdered n t
  waited-IsOrdered n s t o (more, queue, log) e f = record {
    taken = o.taken;
    count = o.count;
    split =
        ap (λ x. first ++ x) log
        ∙ sym (append_assoc first (arrived s.world) more)
        ∙ ap (λ x. x ++ more) o.split
        ∙ append_assoc o.taken s.worker.queue more
        ∙ ap (λ x. o.taken ++ x) (sym queue);
    runs = rw (e, f) o.runs;
  }
