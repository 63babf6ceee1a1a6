-- ===== src/Worker/Manager/Laws.antt =====
-- How src/WorkerManager.hpp spreads the jobs over the workers.
use mathlib.Core.List.{Perm, perm_middle}
use mathlib.Core.List.Perm
use cdnalizerd.Base.{
  ℕ, zero, suc, ◌≤◌, ◌<◌, ◌≡◌, ◌⊎◌, inl, inr, refl, sym, ◌∙◌, true, false, List, [], ◌∷◌, ◌++◌,
  some, arith, ltb, ltb→lt, length, length-append, get_elem?, Bool-cases, if◌then◌else◌, Each,
  Each-imp, Each-append, append-nil, append_assoc,
}
use cdnalizerd.Base.Text.{Text, text_eq, text_eq→eq, text_eq_refl}
use cdnalizerd.Job.{Job}
use cdnalizerd.Worker.{Worker, ready, new_worker, launch, is_idle, queue_size}
use cdnalizerd.Worker.Manager.{
  max_workers_per_url, pick, pick_from, get_worker_from, workers_at, set_workers, add_job_at,
  WorkerManager, get_worker, submit,
}

less_trans : (a b c : ℕ) → ltb a b ≡ true → b ≤ c → a ≤ c
less_trans a b c h k = ground arith

not_less : (a b : ℕ) → ltb a b ≡ false → b ≤ a
not_less a b h = ground arith

module _ {Work : Type 0} where
  -- The worker at `n` is idle, or none is and no other has a shorter queue.
  abbrev pub IsBest : List (Worker Work) → Worker Work → Type 0
  IsBest ws w =
      (is_idle w ≡ true) ⊎ Each (λ v. (is_idle v ≡ false) × (queue_size w ≤ queue_size v)) ws

  get_elem?-middle :
      (before after : List (Worker Work)) (v : Worker Work)
      → get_elem? (before ++ v ∷ after) (length before) ≡ some v
  get_elem?-middle [] after v = refl
  get_elem?-middle (u ∷ before) after v = get_elem?-middle before after v

  abbrev Passed : Worker Work → Worker Work → Type 0
  Passed l v = (is_idle v ≡ false) × (queue_size l ≤ queue_size v)

  -- The loop from the middle of a list: of those passed, none was idle and none had a shorter queue
  -- than the least busy one.
  pick-IsBest :
      (ws before after : List (Worker Work)) (i least : ℕ) (l : Worker Work)
      → ws ≡ before ++ after
      → i ≡ length before
      → get_elem? ws least ≡ some l
      → Each (Passed l) before
      → (w : Worker Work) × (get_elem? ws (pick after i least (queue_size l)) ≡ some w)
        × IsBest ws w
  unfolding pick
  pick-IsBest ws before [] i least l q n e h = (l, e, inr (rw (q, append-nil before) h))
  pick-IsBest ws before (v ∷ after) i least l q n e h = elim (Bool-cases (is_idle v)) [
    | inl idle ↦ (v, rw (idle, q, n) (get_elem?-middle before after v), inl idle)
    | inr busy ↦
        let split = q ∙ sym (append_assoc before (v ∷ []) after) in
        let next : suc i ≡ length (before ++ v ∷ []) =
          omega (arith, n, length-append before (v ∷ [])) in
        elim (Bool-cases (ltb (queue_size v) (queue_size l))) [
          | inl less ↦
              rw (busy, less)
                (pick-IsBest ws (before ++ v ∷ []) after (suc i) i v split next
                  (rw (q, n) (get_elem?-middle before after v))
                  (Each-append (Passed v) before (v ∷ [])
                    (Each-imp (Passed l) (Passed v) before
                      (λ u p.
                        (p.0, less_trans (queue_size v) (queue_size l) (queue_size u) less p.1))
                      h)
                    ((busy, omega arith), tt)))
          | inr more ↦
              rw (busy, more)
                (pick-IsBest ws (before ++ v ∷ []) after (suc i) least l split next e
                  (Each-append (Passed l) before (v ∷ []) h ((busy, not_less _ _ more), tt)))
        ]
  ]

  pub workers_at-set_workers :
      (m : List (Text × List (Worker Work))) (url other : Text) (ws : List (Worker Work))
      → workers_at (set_workers m url ws) other
        ≡ (if text_eq url other then ws else workers_at m other)
  unfolding workers_at set_workers
  workers_at-set_workers [] url other ws = refl
  workers_at-set_workers ((u, vs) ∷ m) url other ws = ground (
    arith,
    text_eq→eq u url,
    text_eq→eq u other,
    text_eq→eq url other,
    text_eq_refl url,
    text_eq_refl u,
    workers_at-set_workers m url other ws,
  )

  -- The worker that `getWorker` gives for a URL. With fewer than three workers there it is a new one
  -- in the state `Ready`, with no job, put in front of the others. Otherwise the list stays as it is,
  -- and the worker is idle, or else no worker is idle and none has a shorter queue.
  pub data Gets (url : Text) (ws : List (Worker Work)) : List (Worker Work) × ℕ → Type 0 where
    fresh :
        (w : Worker Work)
        → length ws < max_workers_per_url
        → (w.state ≡ ready) × (w.queue ≡ []) × (w.url ≡ url)
        → Gets url ws (w ∷ ws, 0)
    shared :
        (i : ℕ) (w : Worker Work)
        → max_workers_per_url ≤ length ws
        → get_elem? ws i ≡ some w
        → IsBest ws w
        → Gets url ws (ws, i)

  new_is_fresh :
      (url : Text)
      → let w = launch (new_worker {Work = Work} url) in
        (w.state ≡ ready) × (w.queue ≡ []) × (w.url ≡ url)
  unfolding launch new_worker
  new_is_fresh url = (refl, refl, refl)

  pick_from-IsBest :
      (ws : List (Worker Work))
      → 0 < length ws
      → (w : Worker Work) × (get_elem? ws (pick_from ws) ≡ some w) × IsBest ws w
  unfolding pick_from
  pick_from-IsBest [] h = elim h [ ]
  pick_from-IsBest (v ∷ ws) h = pick-IsBest (v ∷ ws) [] (v ∷ ws) 0 0 v refl refl refl tt

  get_worker_from-Gets :
      (ws : List (Worker Work)) (url : Text) → Gets url ws (get_worker_from ws url)
  unfolding get_worker_from
  get_worker_from-Gets ws url = elim (Bool-cases (ltb (length ws) max_workers_per_url)) [
    | inl few ↦ rw few (fresh (launch (new_worker url)) (ltb→lt _ _ few) (new_is_fresh url))
    | inr many ↦
        let room : 3 ≤ length ws = not_less _ _ many in
        let (w, e, best) = pick_from-IsBest ws (omega arith) in
        rw many (shared (pick_from ws) w room e best)
  ]

  -- For every URL, `getWorker` gives a worker as described above, and leaves the workers of every
  -- other URL as they were.
  pub get_worker-Gets :
      (m : WorkerManager Work) (url : Text)
      → Gets url
          (workers_at m.workers url)
          (workers_at (get_worker m url).0.workers url, (get_worker m url).1)
        × ((other : Text)
            → text_eq url other ≡ false
            → workers_at (get_worker m url).0.workers other ≡ workers_at m.workers other)
  unfolding get_worker
  get_worker-Gets m url = (
    rw (workers_at-set_workers, text_eq_refl url)
        (get_worker_from-Gets (workers_at m.workers url) url),
    λ other ne. rw (workers_at-set_workers, ne) refl,
  )

  abbrev pub all_jobs : List (Worker Work) → List (Job Work)
  all_jobs [] = []
  all_jobs (w ∷ ws) = w.queue ++ all_jobs ws

  add_job_at-perm :
      (ws : List (Worker Work)) (i : ℕ) (w : Worker Work) (job : Job Work)
      → get_elem? ws i ≡ some w
      → Perm (all_jobs (add_job_at ws i job)) (job ∷ all_jobs ws)
  unfolding add_job_at
  add_job_at-perm [] i w job e = cc
  add_job_at-perm (v ∷ ws) zero w job e =
      rw (append_assoc v.queue (job ∷ []) (all_jobs ws)) (perm_middle v.queue (all_jobs ws))
  add_job_at-perm (v ∷ ws) (suc i) w job e =
      Perm.trans (Perm.append_left v.queue (add_job_at-perm ws i w job e))
        (perm_middle v.queue (all_jobs ws))

  submitted :
      (url : Text) (ws : List (Worker Work)) (r : List (Worker Work) × ℕ) (job : Job Work)
      → Gets url ws r
      → Perm (all_jobs (add_job_at r.0 r.1 job)) (job ∷ all_jobs ws)
  submitted url ws r job (fresh w few (ready_now, no_jobs, there)) =
      Perm.trans (add_job_at-perm (w ∷ ws) 0 w job refl)
        (rw no_jobs (Perm.refl (job ∷ all_jobs ws)))
  submitted url ws r job (shared i w many e best) = add_job_at-perm ws i w job e

  -- Submitting a job for a URL adds that job, once, to the jobs that the workers of the URL hold
  -- between them, loses none of those, and leaves the workers of every other URL as they were.
  pub submit-perm :
      (m : WorkerManager Work) (url : Text) (job : Job Work)
      → Perm
          (all_jobs (workers_at (submit m url job).workers url))
          (job ∷ all_jobs (workers_at m.workers url))
        × ((other : Text)
            → text_eq url other ≡ false
            → workers_at (submit m url job).workers other ≡ workers_at m.workers other)
  unfolding submit
  submit-perm m url job = (
    rw (workers_at-set_workers, text_eq_refl url, workers_at-set_workers, text_eq_refl url)
        (submitted url _ _ job (get_worker_from-Gets (workers_at m.workers url) url)),
    λ other ne. rw (workers_at-set_workers, ne, workers_at-set_workers, ne) refl,
  )
