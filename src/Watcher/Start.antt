-- ===== src/Watcher/Start.antt =====
-- `watchForFileChanges` of src/processes/mainProcess.cpp as a whole: the watches, the login, the
-- synchronisation, and the loop over the events. `none` is an exception, which the handlers at its end
-- log, or a failed assertion.
pub mod Known
pub mod Bounded
use cdnalizerd.Base.{ℕ, Bool, true, false, List, [], ◌∷◌, Option, none, some, if◌then◌else◌}
use cdnalizerd.Base.Text.{Text, text_eq}
use cdnalizerd.Base.Maps.{find}
use cdnalizerd.Config.{ConfigEntry}
use cdnalizerd.Config.Entries.{Config}
use cdnalizerd.Account.Cache.{LoginServer, AccountCache}
use cdnalizerd.Account.LoginAll.{login}
use cdnalizerd.Inotify.{new_instance}
use cdnalizerd.Sync.{Disk, RemoteList, Queues, sync_one_config_entry}
use cdnalizerd.Watcher.{Files, Watcher, and_then, create_inotify_watches, Arrival, handle_events}

-- What the parts ask of the outside: the file system, the kernel, the servers, and the scheduler.
pub record Surroundings (Regex : Type 0) : Type 1 where
  pub files : Files Regex
  pub disk : Disk Regex
  -- Whether `inotify_init1` gives a handle, and the kernel's answers until the loop.
  pub inotify_init : Bool
  pub kernel : Text → Option ℕ
  pub login_server : LoginServer
  pub login_world : login_server.World
  pub login_turns : List Bool
  -- The entries in the order in which they are synchronised, each with its remote list.
  pub synced : List (ConfigEntry Regex × RemoteList)

abbrev pub no_watches : {Regex : Type 0} → Watcher Regex
no_watches = record {
  inotify = new_instance;
  watch_to_config = [];
  workers = record { workers = [] };
  next_id = 0;
}

-- What the synchronisations queue. One runs to its end before the next begins: that is the schedule in
-- which no two of them wait for their servers at a time.
unfoldable pub sync_entries :
    {Regex : Type 0}
    → Disk Regex
    → AccountCache
    → List (ConfigEntry Regex × RemoteList)
    → Queues
    → Option Queues
unfolding find sync_one_config_entry
sync_entries disk accounts [] q = some q
sync_entries disk accounts ((entry, remote) ∷ rest) q =
    elim (find text_eq accounts entry.username) [
      | none ↦ none
      | some rs ↦
          and_then (sync_one_config_entry disk rs entry remote q) (sync_entries disk accounts rest)
    ]

module _ {Regex : Type 0} (S : Surroundings Regex) where
  -- The accounts, and the watcher with what was queued.
  unfoldable pub synchronised : Watcher Regex → AccountCache → Option (AccountCache × Watcher Regex)
  unfolding sync_entries and_then
  synchronised s accounts =
      and_then
        (sync_entries S.disk accounts S.synced
          (record { workers = s.workers; next_id = s.next_id }))
        (λ q. some (accounts, record s { workers = q.workers; next_id = q.next_id }))

  -- Up to the loop.
  unfoldable pub start_watching : Config Regex → Option (AccountCache × Watcher Regex)
  unfolding create_inotify_watches login synchronised
  start_watching config =
      if S.inotify_init
      then and_then (create_inotify_watches S.files S.kernel no_watches config.entries) (λ s.
        and_then (login S.login_server config.entries [] S.login_world S.login_turns)
          (synchronised s))
      else none

  -- With the events that come.
  unfoldable pub watch_for_file_changes : Config Regex → List Arrival → Option (Watcher Regex)
  unfolding start_watching handle_events
  watch_for_file_changes config events =
      and_then (start_watching config) (λ (accounts, s). handle_events S.files accounts s events)
