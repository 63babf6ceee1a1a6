-- ===== src/Jobs.antt =====
-- src/jobs: what a job does. `Task` is what a job's function holds, `run_task` the call of it.
pub mod Http
pub mod Md5
pub mod Upload
pub mod Delete
pub mod Laws
pub mod Quiet
use cdnalizerd.Base.{ℕ, [], ◌++◌}
use cdnalizerd.Base.Text.{Text, codes}
use cdnalizerd.Url.Parser.{Url}
use cdnalizerd.Job.{Job, make_job}
use Http.{Outside, Connection, Try}
use Upload.{upload, conditional_upload}
use Delete.{delete_remote_file}

pub data Task : Type 0 where
  upload_task : Text → Url → Task
  conditional_upload_task : Text → Url → Task
  remote_delete_task : Url → Task

-- `makeUploadJob`
unfoldable pub make_upload_job : ℕ → Text → Url → Job Task × ℕ
make_upload_job next_id source dest =
    make_job next_id (codes "Upload " ++ source ++ codes " to " ++ dest.raw)
      (upload_task source dest)

-- `makeConditionalUploadJob`
unfoldable pub make_conditional_upload_job : ℕ → Text → Url → Job Task × ℕ
make_conditional_upload_job next_id source dest =
    make_job next_id (codes "Conditional upload " ++ source ++ codes " to " ++ dest.raw)
      (conditional_upload_task source dest)

-- `makeRemoteDeleteJob`
unfoldable pub make_remote_delete_job : ℕ → Url → Job Task × ℕ
make_remote_delete_job next_id dest =
    make_job next_id (codes "Remote delete job for " ++ dest.raw) (remote_delete_task dest)

-- `go(conn, token)`
unfoldable pub run_task :
    (o : Outside) → Task → Text → Connection o.World → Try Unit × Connection o.World
unfolding upload conditional_upload delete_remote_file
run_task o (upload_task source dest) token c = upload o source dest token [] c
run_task o (conditional_upload_task source dest) token c = conditional_upload o source dest token c
run_task o (remote_delete_task dest) token c = delete_remote_file o dest token c
