-- ===== src/Tests/Deliveries.antt =====
-- A saved file, from its event to the requests for it.
use cdnalizerd.Base.{ℕ, arith, replicate, ◌≡◌, refl, true, [], ◌∷◌, some}
use cdnalizerd.Base.Text.{codes}
use cdnalizerd.Job.{Job}
use cdnalizerd.Jobs.{Task, upload_task, conditional_upload_task, remote_delete_task}
use cdnalizerd.Jobs.Http.{Outside, throw, std_exception, system_error}
use cdnalizerd.Jobs.Quiet.{IsStandard}
use cdnalizerd.Jobs.Md5.{hex}
use cdnalizerd.Jobs.Upload.{head_request, put_request}
use cdnalizerd.Inotify.{was_closed}
use cdnalizerd.Watcher.{Watcher, handle_event}
use cdnalizerd.Worker.{Worker, ready, dead}
use cdnalizerd.Worker.Loop.{State, do_work}
use cdnalizerd.Worker.Manager.{workers_at}
use cdnalizerd.Delivery.{task_environment, saved_file-delivered}
use cdnalizerd.Delivery.Uploads.{do_work-Uploads}
use cdnalizerd.Delivery.Deletions.{deletion, do_work-deletion}
use cdnalizerd.Tests.Watches.{
  files, accounts, kernel, start, event, watch, entry, storage, remote, event-IsFound,
  remote_address,
}
use cdnalizerd.Tests.Jobs.{answering, fresh}

saved_file-delivered_example :
    (t : Watcher ℕ) × (worker : Worker Task) × (u : State
      (task_environment (answering 404 []) (codes "t") (λ x. true)))
    × (handle_event files kernel accounts start (event 8) ≡ some t)
    × (workers_at t.workers.workers (codes "http://h/a") ≡ worker ∷ [])
    × (do_work (task_environment (answering 404 []) (codes "t") (λ x. true)) 2 worker fresh
        ≡ some u)
    × (u.worker.state ≡ dead)
    × (u.world.sent
        ≡ head_request (answering 404 []) remote (codes "t")
          ∷ put_request (answering 404 []) remote (codes "t") (codes "ab") 1
          ∷ [])
unfolding hex was_closed cdnalizerd.Config.should_ignore_file workers_at
saved_file-delivered_example =
    saved_file-delivered files accounts kernel (answering 404 []) (codes "t") (λ x. true) start
      (event 8) watch entry storage remote (codes "f") (codes "/d/f") 0 b'a' (codes "b") fresh
      (record { status = 404; etag = [] }) 1 1 (event-IsFound 8) refl refl refl remote_address refl
      (λ x. refl) refl refl refl refl refl refl

-- A file system and a server that always fail.
abbrev failing : Outside
failing = record (answering 500 []) {
  is_regular_file = λ f w. throw std_exception;
  exchange = λ request w. (throw system_error, w);
}

failing-IsStandard : IsStandard failing
failing-IsStandard = record { file_size = λ f w. tt; exchange = λ request w. tt }

abbrev job_of : ℕ → Task → Job Task
job_of id task = record { id = id; name = codes "job"; work = task }

abbrev two_uploads : Worker Task
two_uploads = record {
  state = ready;
  queue =
      job_of 0 (upload_task (codes "/d/f") remote)
      ∷ job_of 1 (conditional_upload_task (codes "/d/g") remote)
      ∷ [];
  url = codes "http://h/a";
}

do_work-Uploads_example :
    (t : State (task_environment failing (codes "t") (λ x. true))) × (do_work
        (task_environment failing (codes "t") (λ x. true))
        3
        two_uploads
        fresh
      ≡ some t)
    × (t.worker.state ≡ dead)
    × (t.worker.queue ≡ [])
    × (t.tried ≡ two_uploads.queue)
    × (t.finished ≡ two_uploads.queue)
    × (t.retries ≡ 0)
do_work-Uploads_example =
    do_work-Uploads failing (codes "t") (λ x. true) 3 two_uploads fresh failing-IsStandard
      (λ x. refl) (omega arith) (tt, (tt, tt))

-- A server that refuses: the request is sent four times.
do_work-deletion_example :
    (u : State (task_environment (answering 409 []) (codes "t") (λ x. true))) × (do_work
        (task_environment (answering 409 []) (codes "t") (λ x. true))
        2
        (record two_uploads { queue = job_of 2 (remote_delete_task remote) ∷ [] })
        fresh
      ≡ some u)
    × (u.worker.state ≡ dead)
    × (u.worker.queue ≡ [])
    × (u.world.sent ≡ replicate 4 (deletion (answering 409 []) remote (codes "t")))
    × (u.finished ≡ [])
do_work-deletion_example =
    do_work-deletion (answering 409 []) (codes "t") (λ x. true) (λ x. refl) remote
      (record { status = 409; etag = [] }) (λ x. refl)
      (record two_uploads { queue = job_of 2 (remote_delete_task remote) ∷ [] })
      (job_of 2 (remote_delete_task remote)) fresh refl refl
