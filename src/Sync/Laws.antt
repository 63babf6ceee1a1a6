-- ===== src/Sync/Laws.antt =====
-- Which files the synchronisation of src/processes/syncAllDirectories.cpp uploads.
use mathlib.Core.List.{Perm}
use mathlib.Core.List.Perm
use cdnalizerd.Base.{ℕ, suc, ◌≡◌, refl, true, false, List, [], ◌∷◌, some, ltb}
use cdnalizerd.Base.Text.{Text, text_eq}
use cdnalizerd.Utils.{slash, un_join_paths}
use cdnalizerd.Config.{ConfigEntry, should_ignore_file}
use cdnalizerd.Url.Parser.{Url}
use cdnalizerd.Job.{Job}
use cdnalizerd.Jobs.{Task, make_upload_job}
use cdnalizerd.Sync.{
  RemoteFile, RemoteList, Disk, Queues, remote_address, upload_newer, against, sync_page,
}

-- The upload jobs for paths, numbered in order.
abbrev pub upload_jobs : ℕ → (Text → Url) → List Text → List (Job Task)
upload_jobs next_id dest [] = []
upload_jobs next_id dest (path ∷ paths) =
    (make_upload_job next_id path (dest path)).0 ∷ upload_jobs (suc next_id) dest paths

module _ {Regex : Type 0} (disk : Disk Regex) (base : Url) (config : ConfigEntry Regex) where
  -- The path is not ignored and has a remote address.
  pub record HasAddress (path : Text) (dest : Url) : Type 0 where
    pub relative : Text
    pub heard : should_ignore_file disk.regex_search config path ≡ false
    pub relative_found : disk.relative path config.local_dir ≡ some relative
    pub address_found : remote_address disk base config relative ≡ some dest

  -- The local paths and the page name the same files in the same order, with directories between
  -- the local ones, and no local file is newer.
  pub data InStep : List RemoteFile → List Text → Type 0 where
    both_end : InStep [] []
    directory :
        {remote : RemoteFile} {page : List RemoteFile} {path : Text} {paths : List Text}
        → disk.is_directory path ≡ some true
        → InStep (remote ∷ page) paths
        → InStep (remote ∷ page) (path ∷ paths)
    same :
        {remote : RemoteFile} {page : List RemoteFile} {path : Text} {paths : List Text}
        (tail : Text) (here there : ℕ)
        → disk.is_directory path ≡ some false
        → disk.relative path config.local_dir ≡ some tail
        → text_eq (slash ∷ tail) (un_join_paths config.remote_dir remote.name) ≡ true
        → disk.last_write_time path ≡ some here
        → disk.remote_time remote.last_modified ≡ some there
        → ltb there here ≡ false
        → InStep page paths
        → InStep (remote ∷ page) (path ∷ paths)

  -- A page in step with the local paths submits no job and uses up all of them.
  sync_page-InStep :
      {page : List RemoteFile} {paths : List Text} (q : Queues)
      → InStep page paths
      → sync_page disk base config page paths q ≡ some ([], q)
  unfolding sync_page against upload_newer
  sync_page-InStep q both_end = refl
  sync_page-InStep q (directory d rest) = rw d (sync_page-InStep q rest)
  sync_page-InStep q (same tail here there d r e w t n rest) =
      rw (d, r, e, w, t, n) (sync_page-InStep q rest)

-- The connection is made, and the list ends without an exception before it has a page.
abbrev pub no_page : RemoteList
no_page = record { connected = true; pages = []; thrown = false }
