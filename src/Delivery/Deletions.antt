-- ===== src/Delivery/Deletions.antt =====
-- What a worker (src/Worker.cpp) sends for a deletion of src/jobs/delete.cpp.
use cdnalizerd.Base.{
  ℕ, zero, suc, ◌+◌, ◌≡◌, refl, sym, ap, ◌∙◌, Bool, true, false, List, [], ◌∷◌, ◌++◌, some, arith,
  ◌==◌, ◌||◌, if◌then◌else◌, replicate, append-nil, append_assoc, Bool-cases, inl, inr,
}
use cdnalizerd.Base.Text.{Text, codes, text_eq}
use cdnalizerd.Url.Parser.{Url}
use cdnalizerd.Job.{Job}
use cdnalizerd.Jobs.{Task, remote_delete_task, run_task}
use cdnalizerd.Jobs.Http.{
  delete, Request, Response, Outside, Connection, ok, set_bare_headers, send,
}
use cdnalizerd.Jobs.Delete.{delete_request, delete_remote_file, check_delete}
use cdnalizerd.Worker.{Worker, dead, set_state, end_sentry}
use cdnalizerd.Worker.Loop.{State, goes_on, waited, attempt, end_round, work, leave_scope, do_work}
use cdnalizerd.Worker.Loop.Tries.{attempt_step, attempt_exhausted, attempt_once_ok, succeeded}
use cdnalizerd.Worker.Loop.Arrivals.{once_again, retried}
use cdnalizerd.Worker.Loop.Laws.{
  begun, start_work_ok, work_breaks, job_round_cons, end_round_last, slept, without_first,
  do_work_goes_on,
}
use cdnalizerd.Delivery.{returned, task_environment, task_environment-IsQuiet}

-- The request, field by field.
abbrev pub deletion : Outside → Url → Text → Request
deletion o dest token = record {
  verb = delete;
  target = dest.path;
  fields =
      (codes "Host", dest.host)
      ∷ (codes "User-Agent", o.user_agent)
      ∷ (codes "Accept", codes "application/json")
      ∷ (codes "X-Auth-Token", token)
      ∷ [];
}

-- The statuses of a file that is gone.
abbrev pub is_gone : Response → Bool
is_gone r = r.status == 404 || r.status == 204

delete_request-fields :
    (o : Outside) (dest : Url) (token : Text) → delete_request o dest token ≡ deletion o dest token
unfolding delete_request set_bare_headers text_eq
delete_request-fields o dest token = refl

returned-check_delete : (r : Response) → returned (check_delete (ok r)) ≡ is_gone r
unfolding check_delete
returned-check_delete r = elim (Bool-cases (is_gone r)) [
  | inl e ↦ rw (check_delete, e) refl
  | inr e ↦ rw (check_delete, e) refl
]

module _ (o : Outside) (token : Text) (reaches : o.World → Bool)
    (reached : (x : o.World) → reaches x ≡ true) (dest : Url) (r : Response)
    (answers : (x : o.World) → (o.exchange (deletion o dest token) x).0 ≡ ok r) where
  abbrev E : cdnalizerd.Worker.Loop.Environment Task
  E = task_environment o token reaches

  run_task-sent :
      (c : Connection o.World)
      → (run_task o (remote_delete_task dest) token c).1.sent ≡ c.sent ++ deletion o dest token ∷ []
  unfolding run_task delete_remote_file send
  run_task-sent c = ap (λ q. c.sent ++ q ∷ []) (delete_request-fields o dest token)

  run_task-gone :
      (c : Connection o.World)
      → returned (run_task o (remote_delete_task dest) token c).0 ≡ is_gone r
  unfolding run_task delete_remote_file send
  run_task-gone c =
      ap (λ q. returned (check_delete (o.exchange q c.world).0))
        (delete_request-fields o dest token)
      ∙ ap (λ x. returned (check_delete x)) (answers c.world)
      ∙ returned-check_delete r

  module _ (job : Job Task) (deletes : job.work ≡ remote_delete_task dest) where
    go-gone : (s : State E) → (E.go job s.world).success ≡ is_gone r
    go-gone s = ap (λ k. returned (run_task o k token s.world).0) deletes ∙ run_task-gone s.world

    go-sent :
        (s : State E) → (E.go job s.world).world.sent ≡ s.world.sent ++ deletion o dest token ∷ []
    go-sent s = ap (λ k. (run_task o k token s.world).1.sent) deletes ∙ run_task-sent s.world

    -- What the tries leave, in a worker that holds nothing else.
    record Sent (n : ℕ) (finished : List (Job Task)) (s t : State E) : Type 0 where
      queue : t.worker.queue ≡ s.worker.queue
      sent : t.world.sent ≡ s.world.sent ++ replicate n (deletion o dest token)
      done : t.finished ≡ s.finished ++ finished

    refused :
        (fuel : ℕ) (s : State E)
        → is_gone r ≡ false
        → s.retries + fuel ≡ 4
        → (t : State E) × (attempt E fuel job s ≡ goes_on t) × Sent fuel [] s t
    unfolding waited
    refused zero s stays h = (
      s,
      attempt_exhausted E zero job s (omega arith),
      record {
        queue = refl;
        sent = sym (append-nil s.world.sent);
        done = sym (append-nil s.finished);
      },
    )
    refused (suc fuel) s stays h =
        let none_yet : E.World → List (Job Task) = λ _. [] in
        let again = retried E none_yet job s in
        let (t, e, v) = refused fuel again stays (omega arith) in
        (
          t,
          rw
              (
                attempt_step E fuel job s (omega arith),
                once_again E none_yet job s (go-gone s ∙ stays) (reached _),
              )
              e,
          record {
            queue = v.queue ∙ append-nil (s.worker.queue ++ []) ∙ append-nil s.worker.queue;
            sent =
                v.sent
                ∙ ap (λ l. l ++ replicate fuel (deletion o dest token)) (go-sent s)
                ∙ append_assoc s.world.sent (deletion o dest token ∷ []) _;
            done = v.done;
          },
        )

    tried :
        (s : State E)
        → s.retries ≡ 0
        → (t : State E) × (attempt E 4 job s ≡ goes_on t)
          × Sent (if is_gone r then 1 else 4) (if is_gone r then job ∷ [] else []) s t
    unfolding waited
    tried s z = elim (Bool-cases (is_gone r)) [
      | inr stays ↦ rw stays (refused 4 s stays (omega (arith, z)))
      | inl gone ↦ rw gone (
        succeeded E job s,
        rw (attempt_step E 3 job s (omega (arith, z)), attempt_once_ok E job s (go-gone s ∙ gone))
            refl,
        record { queue = append-nil s.worker.queue; sent = go-sent s; done = refl },
      )
    ]

  -- A worker with one deletion, and nobody adds jobs. Take a server that can be reached and gives the
  -- same answer to each DELETE request for the path of the address, with the host, the agent, the type
  -- and the token in its fields. The worker ends, dead. If the answer has the status 404 or 204, it has
  -- sent that request once and finished the job; with any other status it has sent it four times, and
  -- the job is dropped.
  pub do_work-deletion :
      (w : Worker Task) (job : Job Task) (c : Connection o.World)
      → job.work ≡ remote_delete_task dest
      → w.queue ≡ job ∷ []
      → (u : State E) × (do_work E 2 w c ≡ some u)
        × (u.worker.state ≡ dead)
        × (u.worker.queue ≡ [])
        × (u.world.sent ≡ c.sent ++ replicate (if is_gone r then 1 else 4) (deletion o dest token))
        × (u.finished ≡ (if is_gone r then job ∷ [] else []))
  unfolding leave_scope waited set_state end_sentry
  do_work-deletion w job c deletes one =
      let q = task_environment-IsQuiet o token reaches reached in
      let s = begun E w c in
      let e : s.worker.queue ≡ job ∷ [] = append-nil w.queue ∙ one in
      let (t, a, v) = tried job deletes (without_first E s []) refl in
      (
        leave_scope E (slept E t),
        do_work_goes_on E 2 w c s (slept E t) (start_work_ok E w c (reached c.world)) (
            work_breaks E 1 s (slept E t) job [] e
              (job_round_cons E s job [] e ∙ ap (end_round E) a ∙ end_round_last E q t v.queue)),
        refl,
        append-nil (t.worker.queue ++ []) ∙ append-nil t.worker.queue ∙ v.queue,
        v.sent,
        v.done,
      )
