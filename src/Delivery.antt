-- ===== src/Delivery.antt =====
-- The way of a saved file: the event of src/processes/mainProcess.cpp queues a job, and the worker of
-- src/Worker.cpp that has it runs the function of src/jobs/upload.cpp.
pub mod Uploads
pub mod Deletions
use cdnalizerd.Base.{
  ℕ, suc, ◌≡◌, refl, ap, ◌∙◌, Bool, true, false, List, [], ◌∷◌, ◌++◌, Option, some, arith,
  if◌then◌else◌,
}
use cdnalizerd.Base.Text.{Text, text_eq_refl}
use cdnalizerd.Config.{ConfigEntry, should_ignore_file}
use cdnalizerd.Url.{destination}
use cdnalizerd.Url.Parser.{Url, parsed}
use cdnalizerd.Account.{Rackspace}
use cdnalizerd.Job.{Job, make_job}
use cdnalizerd.Jobs.{Task, run_task, make_conditional_upload_job}
use cdnalizerd.Jobs.Http.{Try, ok, throw, Response, Outside, Connection}
use cdnalizerd.Jobs.Md5.{hex}
use cdnalizerd.Jobs.Upload.{head_request, put_request}
use cdnalizerd.Jobs.Laws.{wants_upload, conditional_upload-sent}
use cdnalizerd.Inotify.{Event, Watch, was_closed}
use cdnalizerd.Watcher.{Files, Watcher, handle_event}
use cdnalizerd.Watcher.Jobs.{IsFound, handle_event-closed}
use cdnalizerd.Worker.{Worker, dead, launch, new_worker, add_job}
use cdnalizerd.Worker.Loop.{Environment, State, do_work}
use cdnalizerd.Worker.Loop.Tries.{IsQuiet}
use cdnalizerd.Worker.Loop.Smooth.{do_work_smooth}
use cdnalizerd.Worker.Manager.{
  WorkerManager, workers_at, set_workers, submit, get_worker, add_job_at,
}
use cdnalizerd.Worker.Manager.Laws.{workers_at-set_workers}

-- A function that returned, and did not throw.
abbrev pub returned : Try Unit → Bool
returned (ok _) = true
returned (throw _) = false

-- `job.go(conn, worker.token())` in the loop of a worker, over connections that `reaches` lets be
-- made, while nobody else adds jobs.
abbrev pub task_environment : (o : Outside) → Text → (o.World → Bool) → Environment Task
task_environment o token reaches = record {
  World = Connection o.World;
  connect = λ c. record { success = reaches c.world; arrivals = []; world = c };
  go = λ job c.
      let (result, c') = run_task o job.work token c in
      record { success = returned result; arrivals = []; world = c' };
  reconnect = λ c. record { success = reaches c.world; arrivals = []; world = c };
  wait = λ c. record { success = true; arrivals = []; world = c };
  close = λ c. record { success = true; arrivals = []; world = c };
}

pub task_environment-IsQuiet :
    (o : Outside) (token : Text) (reaches : o.World → Bool)
    → ((w : o.World) → reaches w ≡ true)
    → IsQuiet (task_environment o token reaches)
task_environment-IsQuiet o token reaches h = record {
  connect = λ c. (h c.world, refl);
  go = λ j c. refl;
  reconnect = λ c. (h c.world, refl);
  wait = λ c. (refl, refl);
  close = λ c. refl;
}

-- The first worker of a URL, with one job.
abbrev first_worker : Text → Job Task → Worker Task
first_worker url job = add_job (launch (new_worker url)) job

submit-first :
    (m : WorkerManager Task) (url : Text) (job : Job Task)
    → workers_at m.workers url ≡ []
    → workers_at (submit m url job).workers url ≡ first_worker url job ∷ []
unfolding submit get_worker cdnalizerd.Worker.Manager.get_worker_from add_job_at add_job launch
    new_worker
submit-first m url job e =
    rw (workers_at-set_workers, text_eq_refl url, workers_at-set_workers, text_eq_refl url, e) refl

module _ {Regex : Type 0} (files : Files Regex) (accounts : List (Text × Rackspace))
    (kernel : Text → Option ℕ) (o : Outside) (token : Text) (reaches : o.World → Bool) where
  -- A saved file is delivered. Take an event of a closed file that is not empty and not ignored and has
  -- an address, for a URL that has no worker yet, and a server that can be reached. The event then
  -- leaves the URL with one worker, and that worker, run while nobody adds jobs, ends dead after it
  -- asked the server for its copy and sent the file with its digest exactly if the copy is missing
  -- there or another one.
  pub saved_file-delivered :
      (s : Watcher Regex) (event : Event) (watch : Watch) (entry : ConfigEntry Regex)
      (url dest : Url) (relative bytes : Text) (n d : ℕ) (md5 : Text) (c : Connection o.World)
      (r : Response) (w : o.World) (size : ℕ)
      → IsFound files accounts s event watch entry url relative
      → was_closed event ≡ true
      → files.file_size (files.path_div watch.path event.name) ≡ some (suc n)
      → should_ignore_file files.regex_search entry (files.path_div watch.path event.name) ≡ false
      → destination url entry.container entry.remote_dir relative ≡ some (parsed dest)
      → workers_at s.workers.workers url.raw ≡ []
      → ((x : o.World) → reaches x ≡ true)
      → o.is_regular_file (files.path_div watch.path event.name) c.world ≡ ok true
      → o.mapped (files.path_div watch.path event.name) c.world ≡ ok bytes
      → hex (o.md5 bytes) ≡ d ∷ md5
      → o.exchange (head_request o dest token) c.world ≡ (ok r, w)
      → o.file_size (files.path_div watch.path event.name) w ≡ ok (suc n)
      → o.open_body (files.path_div watch.path event.name) w ≡ some size
      → (t : Watcher Regex) × (worker : Worker Task) × (u : State
          (task_environment o token reaches))
        × (handle_event files kernel accounts s event ≡ some t)
        × (workers_at t.workers.workers url.raw ≡ worker ∷ [])
        × (do_work (task_environment o token reaches) 2 worker c ≡ some u)
        × (u.worker.state ≡ dead)
        × (u.world.sent
            ≡ (c.sent ++ head_request o dest token ∷ [])
              ++ (if wants_upload o (d ∷ md5) r
                  then put_request o dest token (d ∷ md5) size ∷ []
                  else []))
  unfolding make_conditional_upload_job make_job run_task add_job launch new_worker
  saved_file-delivered s event watch entry url dest relative bytes n d md5 c r w size found closed
        big heard there nobody reached regular map dig ex still opens =
      let file = files.path_div watch.path event.name in
      let job = (make_conditional_upload_job s.next_id file dest).0 in
      let E = task_environment o token reaches in
      let worker = first_worker url.raw job in
      let (u, e, state, queue, tried, finished, retries, world) =
        do_work_smooth E 2 worker c (task_environment-IsQuiet o token reaches reached) (omega arith)
          ((λ x. refl), tt) in
      (
        _,
        worker,
        u,
        handle_event-closed files accounts kernel s event watch entry url dest relative n found
            closed big heard there,
        submit-first s.workers url.raw job nobody,
        e,
        state,
        ap (λ x. x.sent) world
            ∙ conditional_upload-sent o file dest token bytes d md5 c r w n size regular map dig ex
                still opens,
      )
