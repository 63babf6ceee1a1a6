-- ===== src/Sync/Keeps.antt =====
-- What uploads keep, the synchronisation of src/processes/syncAllDirectories.cpp keeps.
use cdnalizerd.Base.{List, [], ◌∷◌, Option, none, some, ltb, Option-cases, inl, inr}
use cdnalizerd.Base.Text.{Text}
use cdnalizerd.Base.Holds.{Holds, nothing, result, Holds-if, Holds-then, Holds-chain}
use cdnalizerd.Config.{ConfigEntry, should_ignore_file}
use cdnalizerd.Url.Parser.{Url}
use cdnalizerd.Account.{Rackspace, get_url}
use cdnalizerd.Jobs.{make_upload_job}
use cdnalizerd.Worker.Manager.Bounds.{IsBounded, get_worker-IsBounded, manager-IsBounded}
use cdnalizerd.Sync.{
  RemoteFile, RemoteList, Disk, Queues, remote_address, upload_file, upload_filled, upload_newer,
  against, sync_page, sync_pages, sync_left, sync_files, sync_one_config_entry,
}

module _ {Regex : Type 0} (disk : Disk Regex) (base : Url) (config : ConfigEntry Regex)
    (P : Queues → Type 0)
    (uploads : (path relative : Text) (q : Queues)
      → P q
      → Holds P (upload_file disk base config path relative q)) where
  -- `P` of the queues that are left, with local files still to go.
  Left : Option (List Text × Queues) → Type 0
  Left = Holds (λ r. P r.1)

  upload_filled-Holds :
      (path relative : Text) (q : Queues)
      → P q
      → Holds P (upload_filled disk base config path relative q)
  unfolding upload_filled
  upload_filled-Holds path relative q p =
      Holds-then (disk.file_size path) _
        (λ size. Holds-if P (ltb 0 size) _ (some q) (uploads path relative q p) (result p))

  upload_newer-Holds :
      (path relative : Text) (remote : RemoteFile) (q : Queues)
      → P q
      → Holds P (upload_newer disk base config path relative remote q)
  unfolding upload_newer
  upload_newer-Holds path relative remote q p = Holds-then (disk.last_write_time path) _ (λ local.
      Holds-then (disk.remote_time remote.last_modified) _
        (λ time. Holds-if P _ _ (some q) (upload_filled-Holds path relative q p) (result p)))

  against-Holds :
      (remote : RemoteFile) (next : List Text → Queues → Option (List Text × Queues))
      → ((paths : List Text) (q : Queues) → P q → Left (next paths q))
      → (paths : List Text) (q : Queues) → P q
      → Left (against disk base config remote next paths q)
  unfolding against Left
  against-Holds remote next k [] q p = result p
  against-Holds remote next k (path ∷ paths) q p =
      Holds-then (disk.is_directory path) _ (λ directory.
        Holds-if _ directory _ _ (against-Holds remote next k paths q p) (
          Holds-then (disk.relative path config.local_dir) _ (λ tail.
            Holds-if _ _ _ _
              (Holds-chain (upload_newer-Holds path _ remote q p) (λ r h. k paths r h))
              (Holds-if _ _ _ _
                (Holds-chain (upload_filled-Holds path _ q p)
                  (λ r h. against-Holds remote next k paths r h))
                (k (path ∷ paths) q p)))))

  sync_page-Holds :
      (page : List RemoteFile) (paths : List Text) (q : Queues)
      → P q
      → Left (sync_page disk base config page paths q)
  unfolding sync_page Left
  sync_page-Holds [] paths q p = result p
  sync_page-Holds (remote ∷ page) paths q p =
      against-Holds remote (sync_page disk base config page) (sync_page-Holds page) paths q p

  sync_pages-Holds :
      (pages : List (List RemoteFile)) (paths : List Text) (q : Queues)
      → P q
      → Left (sync_pages disk base config pages paths q)
  unfolding sync_pages Left
  sync_pages-Holds [] paths q p = result p
  sync_pages-Holds (page ∷ pages) paths q p =
      Holds-chain (sync_page-Holds page paths q p) (λ r h. sync_pages-Holds pages r.0 r.1 h)

  sync_left-Holds :
      (paths : List Text) (q : Queues) → P q → Holds P (sync_left disk base config paths q)
  unfolding sync_left
  sync_left-Holds [] q p = result p
  sync_left-Holds (path ∷ paths) q p =
      Holds-then (disk.relative path config.local_dir) _
        (λ relative. Holds-chain (uploads path relative q p) (λ r h. sync_left-Holds paths r h))

  sync_files-Holds :
      (remote : RemoteList) (paths : List Text) (q : Queues)
      → P q
      → Holds P (sync_files disk base config remote paths q)
  unfolding sync_files Left
  sync_files-Holds remote [] q p = result p
  sync_files-Holds remote (path ∷ paths) q p =
      Holds-chain (sync_pages-Holds remote.pages _ q p)
        (λ r h. Holds-if P remote.thrown none _ nothing (sync_left-Holds r.0 r.1 h))

upload_file-IsBounded :
    {Regex : Type 0} (disk : Disk Regex) (base : Url) (config : ConfigEntry Regex)
    (path relative : Text) (q : Queues)
    → IsBounded q.workers
    → Holds (λ r. IsBounded r.workers) (upload_file disk base config path relative q)
unfolding upload_file
upload_file-IsBounded disk base config path relative q h =
    Holds-if _ (should_ignore_file disk.regex_search config path) _ _
      (result (get_worker-IsBounded q.workers base.raw h))
      (Holds-then (remote_address disk base config relative) _ (λ dest.
        result
          (manager-IsBounded q.workers base.raw 0 (make_upload_job q.next_id path dest).0 h).1))

-- A synchronisation leaves no URL with more than three workers, if none had more before.
pub sync_one_config_entry-IsBounded :
    {Regex : Type 0} (disk : Disk Regex) (rs : Rackspace) (config : ConfigEntry Regex)
    (remote : RemoteList) (q : Queues)
    → IsBounded q.workers
    → Holds (λ r. IsBounded r.workers) (sync_one_config_entry disk rs config remote q)
unfolding sync_one_config_entry
sync_one_config_entry-IsBounded disk rs config remote q h =
    elim (Option-cases (get_url rs config.region config.snet)) [
      | inl e ↦ rw (e, sync_one_config_entry) nothing
      | inr (base, e) ↦
          rw (e, sync_one_config_entry)
            (Holds-if _ remote.connected _ none
              (elim (Option-cases (disk.listing config.local_dir)) [
                | inl f ↦ rw f nothing
                | inr (paths, f) ↦ rw f (
                    sync_files-Holds disk base config (λ r. IsBounded r.workers)
                      (upload_file-IsBounded disk base config) remote paths q h)
              ])
              nothing)
    ]
