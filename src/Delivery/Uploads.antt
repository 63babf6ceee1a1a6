-- ===== src/Delivery/Uploads.antt =====
-- What `doWork` of src/Worker.cpp sees of the uploads of src/jobs/upload.cpp.
use cdnalizerd.Base.{ℕ, ◌≡◌, ◌<◌, ap, Bool, true, [], some, length, Each, Each-imp}
use cdnalizerd.Base.Text.{Text}
use cdnalizerd.Jobs.{Task}
use cdnalizerd.Jobs.Http.{Outside, Connection}
use cdnalizerd.Jobs.Quiet.{IsStandard, Uploads, run_task-caught}
use cdnalizerd.Worker.{Worker, dead}
use cdnalizerd.Worker.Loop.{State, do_work}
use cdnalizerd.Worker.Loop.Smooth.{IsSmooth, do_work_smooth}
use cdnalizerd.Delivery.{returned, task_environment, task_environment-IsQuiet}

module _ (o : Outside) (token : Text) (reaches : o.World → Bool) where
  -- A worker with uploads, conditional or not, never tries one again. Take a file system and a server
  -- that fail however they will, with exceptions of the standard library or of boost, and connections
  -- that can be made; and let nobody add jobs while the worker runs. For any fuel above the length of the
  -- queue the worker then ends, dead: it ran each upload once, in order, counted every one of them as
  -- finished, also those that sent nothing or were refused, and counted no retry.
  pub do_work-Uploads :
      (fuel : ℕ) (w : Worker Task) (c : Connection o.World)
      → IsStandard o
      → ((x : o.World) → reaches x ≡ true)
      → length w.queue < fuel
      → Each (λ j. Uploads j.work) w.queue
      → (t : State (task_environment o token reaches)) × (do_work
            (task_environment o token reaches)
            fuel
            w
            c
          ≡ some t)
        × (t.worker.state ≡ dead)
        × (t.worker.queue ≡ [])
        × (t.tried ≡ w.queue)
        × (t.finished ≡ w.queue)
        × (t.retries ≡ 0)
  do_work-Uploads fuel w c standard reached h uploads =
      let E = task_environment o token reaches in
      let (t, e, ended, queue, tried, finished, retries, world) =
        do_work_smooth E fuel w c (task_environment-IsQuiet o token reaches reached) h (
          Each-imp _ (IsSmooth E) w.queue
            (λ j u x. ap returned (run_task-caught o standard j.work token x u)) uploads) in
      (t, e, ended, queue, tried, finished, retries)
