-- ===== src/Sync.antt =====
-- `syncOneConfigEntry` of src/processes/syncAllDirectories.cpp: local files against the pages of the
-- remote list. An exception and undefined behaviour are `none`; the file system, the sort and the
-- clocks are parameters.
pub mod Keeps
pub mod Laws
pub mod Merge
pub mod Wait
use cdnalizerd.Base.{ℕ, Bool, List, [], ◌∷◌, ◌++◌, Option, none, some, ltb, if◌then◌else◌, ◌>>=◌}
use cdnalizerd.Base.Text.{Text, text_eq, text_lt}
use cdnalizerd.Config.{ConfigEntry, should_ignore_file}
use cdnalizerd.Utils.{slash, un_join_paths}
use cdnalizerd.Url.Parser.{Url, parsed, parse_error}
use cdnalizerd.Url.{destination}
use cdnalizerd.Account.{Rackspace, get_url}
use cdnalizerd.Jobs.{Task, make_upload_job}
use cdnalizerd.Worker.Manager.{WorkerManager, get_worker, submit}

-- What the function reads of a remote file.
pub record RemoteFile : Type 0 where
  pub name : Text
  pub last_modified : Text

-- The side of the server: whether the constructor of `HTTPS` returns, the pages of
-- `detailedListContainer`, and whether an exception comes behind them.
pub record RemoteList : Type 0 where
  pub connected : Bool
  pub pages : List (List RemoteFile)
  pub thrown : Bool

-- `listing` is a recursive directory iterator, `sort` is `std::sort` on paths, and `remote_time` reads
-- a time after its T is made a space.
pub record Disk (Regex : Type 0) : Type 0 where
  pub regex_search : Text → Regex → Bool
  pub listing : Text → Option (List Text)
  pub sort : List Text → List Text
  pub is_directory : Text → Option Bool
  pub relative : Text → Text → Option Text
  pub file_size : Text → Option ℕ
  pub last_write_time : Text → Option ℕ
  pub remote_time : Text → Option ℕ

-- The workers, and the next job's number.
pub record Queues : Type 0 where
  pub workers : WorkerManager Task
  pub next_id : ℕ

module _ {Regex : Type 0} (disk : Disk Regex) (base : Url) (config : ConfigEntry Regex) where
  -- `url / config.container / config.remote_dir / localRelativePath` as a URL.
  unfoldable pub remote_address : Text → Option Url
  unfolding destination
  remote_address relative = destination base config.container config.remote_dir relative >>= λ p.
      elim p [ parsed v ↦ some v | parse_error _ ↦ none ]

  -- The function `upload`, and the body of the last loop: the worker is asked for before the file is
  -- tested.
  unfoldable pub upload_file : Text → Text → Queues → Option Queues
  unfolding should_ignore_file remote_address get_worker submit make_upload_job
  upload_file path relative q =
      if should_ignore_file disk.regex_search config path
      then some (record q { workers = (get_worker q.workers base.raw).0 })
      else (remote_address relative >>= λ dest.
          let (job, next_id) = make_upload_job q.next_id path dest in
          some (record { workers = submit q.workers base.raw job; next_id = next_id }))

  -- `if (fs::file_size(...) > 0) upload();`
  unfoldable upload_filled : Text → Text → Queues → Option Queues
  unfolding upload_file
  upload_filled path relative q =
      disk.file_size path >>= λ size. if ltb 0 size then upload_file path relative q else some q

  -- The branch of files that are there on both sides.
  unfoldable pub upload_newer : Text → Text → RemoteFile → Queues → Option Queues
  unfolding upload_filled
  upload_newer path relative remote q = do
    local_time ← disk.last_write_time path
    remote_time ← disk.remote_time remote.last_modified
    if ltb remote_time local_time then upload_filled path relative q else some q

  -- The local files up to the one that the remote file is compared with last; `next` goes on with
  -- the next remote file.
  unfoldable pub against :
      RemoteFile
      → (List Text → Queues → Option (List Text × Queues))
      → List Text
      → Queues
      → Option (List Text × Queues)
  unfolding un_join_paths upload_filled upload_newer
  against remote next [] q = some ([], q)
  against remote next (path ∷ paths) q = disk.is_directory path >>= λ directory.
      if directory
      then against remote next paths q
      else (disk.relative path config.local_dir >>= λ tail.
          if text_eq (slash ∷ tail) (un_join_paths config.remote_dir remote.name)
          then (upload_newer path (slash ∷ tail) remote q >>= λ r. next paths r)
          else if text_lt (slash ∷ tail) (un_join_paths config.remote_dir remote.name)
          then (upload_filled path (slash ∷ tail) q >>= λ r. against remote next paths r)
          else next (path ∷ paths) q)

  -- The inner loop: one page.
  unfoldable pub sync_page : List RemoteFile → List Text → Queues → Option (List Text × Queues)
  unfolding against
  sync_page [] paths q = some (paths, q)
  sync_page (remote ∷ page) paths q = against remote (sync_page page) paths q

  -- The loop over the pages: the local files go on where they are.
  unfoldable pub sync_pages :
      List (List RemoteFile) → List Text → Queues → Option (List Text × Queues)
  unfolding sync_page
  sync_pages [] paths q = some (paths, q)
  sync_pages (page ∷ pages) paths q = sync_page page paths q >>= λ r. sync_pages pages r.0 r.1

  -- The last loop, for the files that are left over.
  unfoldable pub sync_left : List Text → Queues → Option Queues
  unfolding upload_file
  sync_left [] q = some q
  sync_left (path ∷ paths) q = disk.relative path config.local_dir >>= λ relative.
      upload_file path relative q >>= λ r. sync_left paths r

  -- From the list of files on.
  unfoldable pub sync_files : RemoteList → List Text → Queues → Option Queues
  unfolding sync_pages sync_left
  sync_files remote [] q = some q
  sync_files remote (path ∷ paths) q = sync_pages remote.pages (disk.sort (path ∷ paths)) q >>= λ r.
      if remote.thrown then none else sync_left r.0 r.1

-- `syncOneConfigEntry`
unfoldable pub sync_one_config_entry :
    {Regex : Type 0}
    → Disk Regex
    → Rackspace
    → ConfigEntry Regex
    → RemoteList
    → Queues
    → Option Queues
unfolding get_url sync_files
sync_one_config_entry disk rs config remote q = elim (get_url rs config.region config.snet) [
  | none ↦ none
  | some base ↦
      if remote.connected
      then elim (disk.listing config.local_dir) [
        | none ↦ none
        | some paths ↦ sync_files disk base config remote paths q
      ]
      else none
]
