-- ===== src/Watcher.antt =====
-- src/processes/mainProcess.cpp: the watches that are made at the start, and what one event does.
-- An exception, which ends the loop, and undefined behaviour are `none`. The file system and the
-- kernel's answers to `inotify_add_watch` are parameters.
pub mod Keeps
pub mod Jobs
pub mod Nested
pub mod Known
pub mod Start
use cdnalizerd.Base.{
  ℕ, Bool, false, List, [], ◌∷◌, ◌++◌, Option, none, some, ◌==◌, ltb, if◌then◌else◌,
}
use cdnalizerd.Base.Text.{Text, text_eq}
use cdnalizerd.Base.Maps.{find, erase, assign}
use cdnalizerd.Config.{ConfigEntry, should_ignore_file, should_ignore_directory}
use cdnalizerd.Config.Entries.{Config}
use cdnalizerd.Url.Parser.{Url, parsed, parse_error}
use cdnalizerd.Url.{destination}
use cdnalizerd.Account.{Rackspace, get_url}
use cdnalizerd.Job.{Job}
use cdnalizerd.Jobs.{Task, make_conditional_upload_job, make_remote_delete_job}
use cdnalizerd.Worker.{Worker}
use cdnalizerd.Worker.Manager.{
  WorkerManager, get_worker, workers_at, set_workers, add_job_at, replace_at, on_done,
}
use cdnalizerd.Inotify.{
  Watch, Instance, Added, added, not_added, add_watch, remove_watch, Event, was_closed, was_ignored,
  was_deleted, was_created, is_dir,
}

-- What the watcher asks boost::filesystem and std::regex. All but the first two can throw.
pub record Files (Regex : Type 0) : Type 0 where
  pub regex_search : Text → Regex → Bool
  pub path_div : Text → Text → Text
  pub relative : Text → Text → Option Text
  pub file_size : Text → Option ℕ
  pub subdirectories : Text → Option (List Text)

pub record Watcher (Regex : Type 0) : Type 0 where
  pub inotify : Instance
  pub watch_to_config : List (ℕ × ConfigEntry Regex)
  pub workers : WorkerManager Task
  pub next_id : ℕ

unfoldable pub and_then : {A B : Type 0} → Option A → (A → Option B) → Option B
and_then none f = none
and_then (some a) f = f a

-- `ConfigEntry()`
abbrev default_entry : {Regex : Type 0} → ConfigEntry Regex
default_entry = record {
  username = [];
  apikey = [];
  region = [];
  container = [];
  snet = false;
  move = false;
  local_dir = [];
  remote_dir = [];
  files_to_ignore = [];
  directories_to_ignore = [];
}

module _ {Regex : Type 0} (files : Files Regex) (kernel : Text → Option ℕ) where
  -- `watchNewDirectory`
  unfoldable pub watch_new_directory :
      Watcher Regex → ConfigEntry Regex → Text → Option (Watcher Regex)
  unfolding should_ignore_directory add_watch assign
  watch_new_directory s entry path =
      if should_ignore_directory files.regex_search entry path
      then some s
      else elim (add_watch s.inotify path (kernel path)) [
        | not_added _ ↦ none
        | added watch inotify ↦ some (record s {
          inotify = inotify;
          watch_to_config = assign ◌==◌ s.watch_to_config watch.handle entry;
        })
      ]

  unfoldable pub watch_directories :
      Watcher Regex → ConfigEntry Regex → List Text → Option (Watcher Regex)
  unfolding watch_new_directory
  watch_directories s entry [] = some s
  watch_directories s entry (d ∷ ds) =
      and_then (watch_new_directory s entry d) (λ t. watch_directories t entry ds)

  -- `recursivelyWatchDirectory`: the entry's directory, and those below `path`.
  unfoldable pub recursively_watch_directory :
      Watcher Regex → ConfigEntry Regex → Text → Option (Watcher Regex)
  unfolding watch_directories
  recursively_watch_directory s entry path =
      and_then (watch_new_directory s entry entry.local_dir)
        (λ t. and_then (files.subdirectories path) (watch_directories t entry))

  -- `createINotifyWatches`
  unfoldable pub create_inotify_watches :
      Watcher Regex → List (ConfigEntry Regex) → Option (Watcher Regex)
  unfolding recursively_watch_directory
  create_inotify_watches s [] = some s
  create_inotify_watches s (entry ∷ entries) =
      and_then (recursively_watch_directory s entry entry.local_dir)
        (λ t. create_inotify_watches t entries)

  -- `watchToConfig[handle]`, which inserts an entry where there is none.
  unfoldable pub entry_at : Watcher Regex → ℕ → ConfigEntry Regex × Watcher Regex
  unfolding find assign
  entry_at s handle = elim (find ◌==◌ s.watch_to_config handle) [
    | some entry ↦ (entry, s)
    | none ↦ (
      default_entry,
      record s { watch_to_config = assign ◌==◌ s.watch_to_config handle default_entry },
    )
  ]

  -- `worker->addJob(job)`, for a job that takes the next number.
  unfoldable pub give_job : Watcher Regex → Text → ℕ → Job Task × ℕ → Watcher Regex
  unfolding workers_at set_workers add_job_at
  give_job s url i (job, next_id) = record s {
    workers = record {
      workers =
          set_workers s.workers.workers url (add_job_at (workers_at s.workers.workers url) i job);
    };
    next_id = next_id;
  }

  -- `url / entry.container / entry.remote_dir / localRelativePath` as a URL.
  unfoldable pub address : Url → ConfigEntry Regex → Text → Option Url
  unfolding destination
  address url entry relative =
      and_then (destination url entry.container entry.remote_dir relative)
        (λ p. elim p [ parsed v ↦ some v | parse_error _ ↦ none ])

  -- The branch of `wasClosed`; `i` is the place of the event's worker.
  unfoldable pub file_closed :
      Watcher Regex → ConfigEntry Regex → Url → ℕ → Text → Text → Option (Watcher Regex)
  unfolding should_ignore_file address give_job make_conditional_upload_job
  file_closed s entry url i local_file relative = and_then (files.file_size local_file) (λ size.
      if ltb 0 size
      then if should_ignore_file files.regex_search entry local_file
        then some s
        else and_then (address url entry relative) (λ dest.
          some (give_job s url.raw i (make_conditional_upload_job s.next_id local_file dest)))
      else some s)

  -- The branch of `wasDeleted`.
  unfoldable pub file_deleted :
      Watcher Regex → ConfigEntry Regex → Url → ℕ → Text → Text → Bool → Option (Watcher Regex)
  unfolding should_ignore_file address give_job make_remote_delete_job
  file_deleted s entry url i local_file relative directory =
      if directory
      then some s
      else if should_ignore_file files.regex_search entry local_file
      then some s
      else and_then (address url entry relative)
          (λ dest. some (give_job s url.raw i (make_remote_delete_job s.next_id dest)))

  -- The branch of `wasIgnored`: the kernel no longer has the watch.
  unfoldable pub watch_ignored : Watcher Regex → Watch → Watcher Regex
  unfolding erase remove_watch
  watch_ignored s watch = record s {
    watch_to_config = erase ◌==◌ s.watch_to_config watch.handle;
    inotify = remove_watch s.inotify watch;
  }

  -- From the first test of the event on.
  unfoldable pub react :
      Watcher Regex → Event → Watch → ConfigEntry Regex → Url → ℕ → Text → Option (Watcher Regex)
  unfolding file_closed watch_ignored file_deleted watch_new_directory was_closed was_ignored
      was_deleted was_created is_dir
  react s event watch entry url i relative =
      let local_file = files.path_div watch.path event.name in
      if was_closed event
      then file_closed s entry url i local_file relative
      else if was_ignored event
      then some (watch_ignored s watch)
      else if was_deleted event
      then file_deleted s entry url i local_file relative (is_dir event)
      else if was_created event
      then if is_dir event then watch_new_directory s entry local_file else some s
      else some s

  -- One round of the loop, from the event on.
  unfoldable pub handle_event :
      List (Text × Rackspace) → Watcher Regex → Event → Option (Watcher Regex)
  unfolding find entry_at get_url get_worker react
  handle_event accounts s event = and_then (find ◌==◌ s.inotify.watches event.wd) (λ watch.
      let (entry, t) = entry_at s watch.handle in
      and_then (find text_eq accounts entry.username) (λ rs.
        and_then (get_url rs entry.region entry.snet) (λ url.
          let (workers, i) = get_worker t.workers url.raw in
          and_then (files.relative (files.path_div watch.path event.name) entry.local_dir)
            (react (record t { workers = workers }) event watch entry url i))))

-- What a worker of a URL, at a place of its list, does while the loop waits: it goes on, which leaves it
-- in some state and with some queue, or it is done, and its list erases it.
pub data WorkerTurn : Type 0 where
  works : Text → ℕ → Worker Task → WorkerTurn
  ends : Text → ℕ → WorkerTurn

unfoldable pub worker_turn : WorkerManager Task → WorkerTurn → WorkerManager Task
unfolding workers_at set_workers replace_at on_done
worker_turn m (works url i w) = record {
  workers = set_workers m.workers url (replace_at (workers_at m.workers url) i w);
}
worker_turn m (ends url i) = on_done m url i

unfoldable pub worker_turns : WorkerManager Task → List WorkerTurn → WorkerManager Task
unfolding worker_turn
worker_turns m [] = m
worker_turns m (turn ∷ turns) = worker_turns (worker_turn m turn) turns

-- An event, what the kernel answers to the watches that it makes, and the turns of the workers before
-- `waitForEvent` returns it.
pub record Arrival : Type 0 where
  pub event : Event
  pub kernel : Text → Option ℕ
  pub turns : List WorkerTurn

module _ {Regex : Type 0} (files : Files Regex) where
  -- The loop, over the events that come.
  unfoldable pub handle_events :
      List (Text × Rackspace) → Watcher Regex → List Arrival → Option (Watcher Regex)
  unfolding handle_event worker_turns
  handle_events accounts s [] = some s
  handle_events accounts s (a ∷ rest) =
      and_then
        (handle_event files a.kernel accounts
          (record s { workers = worker_turns s.workers a.turns }) a.event)
        (λ t. handle_events accounts t rest)
