-- ===== src/Tests/Starts.antt =====
-- A run of the watcher from its start, for one entry.
use cdnalizerd.Base.{◌≡◌, refl, ℕ, true, false, [], ◌∷◌, Option, none, some, if◌then◌else◌}
use cdnalizerd.Base.Text.{Text, codes, text_eq}
use cdnalizerd.Base.Maps.{find}
use cdnalizerd.Base.Holds.{Holds}
use cdnalizerd.Config.{ConfigEntry}
use cdnalizerd.Config.Entries.{Config}
use cdnalizerd.Url.Parser.{parse}
use cdnalizerd.Account.{Rackspace}
use cdnalizerd.Sync.{Disk}
use cdnalizerd.Watcher.{Watcher, ends, entry_at, handle_events}
use cdnalizerd.Worker.Manager.Bounds.{IsBounded}
use cdnalizerd.Watcher.Start.{Surroundings, start_watching, watch_for_file_changes}
use cdnalizerd.Watcher.Start.Known.{IsOf, watch_for_file_changes_known}
use cdnalizerd.Watcher.Start.Bounded.{HasKnown, watch_for_file_changes-IsBounded}
use cdnalizerd.Tests.Cfsyncs.{login_server}
use cdnalizerd.Tests.Watches.{files, event, watch, entry, one}

-- The local directory has no files.
abbrev disk : Disk ℕ
disk = record {
  regex_search = λ name regex. false;
  listing = λ root. some [];
  sort = λ paths. paths;
  is_directory = λ path. some false;
  relative = λ path base. some path;
  file_size = λ path. some 0;
  last_write_time = λ path. some 0;
  remote_time = λ time. some 0;
}

abbrev one_directory : Text → Option ℕ
one_directory path = if text_eq path (codes "/d") then some 1 else none

abbrev surroundings : Surroundings ℕ
surroundings = record {
  files = files;
  disk = disk;
  inotify_init = true;
  kernel = one_directory;
  login_server = login_server;
  login_world = 0;
  login_turns = true ∷ false ∷ true ∷ false ∷ [];
  synced = (entry, record { connected = true; pages = []; thrown = false }) ∷ [];
}

abbrev config : Config ℕ
config = record { entries = entry ∷ [] }

abbrev account : Rackspace
account = record {
  token = codes "u";
  public_urls =
      (
        codes "r",
        record {
          raw = codes "https://h/v1";
          scheme = codes "https://";
          user = [];
          password = [];
          host = codes "h";
          port = [];
          path = codes "/v1";
          search = [];
          path_and_search = codes "/v1";
        },
      )
      ∷ [];
  private_urls =
      (
        codes "r",
        record {
          raw = codes "https://i/v1";
          scheme = codes "https://";
          user = [];
          password = [];
          host = codes "i";
          port = [];
          path = codes "/v1";
          search = [];
          path_and_search = codes "/v1";
        },
      )
      ∷ [];
}

abbrev started : Watcher ℕ
started = record {
  inotify = one;
  watch_to_config = (1, entry) ∷ [];
  workers = record { workers = [] };
  next_id = 0;
}

start_run : start_watching surroundings config ≡ some ((codes "u", account) ∷ [], started)
unfolding start_watching text_eq parse cdnalizerd.Config.should_ignore_directory
start_run = refl

watch_for_file_changes_known_example :
    (e : ConfigEntry ℕ) × (rs : Rackspace) × (entry_at files one_directory started 1 ≡ (e, started))
    × IsOf (entry ∷ []) e
    × (find text_eq ((codes "u", account) ∷ []) e.username ≡ some rs)
unfolding handle_events find
watch_for_file_changes_known_example =
    watch_for_file_changes_known surroundings config ((codes "u", account) ∷ []) started started []
      (event 8) watch one_directory start_run refl refl

-- The first worker of the storage comes with the event, and is done before the next event.
watch_for_file_changes-IsBounded_example :
    Holds
      (λ t. IsBounded t.workers × HasKnown surroundings config t)
      (watch_for_file_changes surroundings config (
        record { event = event 8; kernel = one_directory; turns = [] }
        ∷ record {
          event = event 8;
          kernel = one_directory;
          turns = ends (codes "https://h/v1") 0 ∷ [];
        }
        ∷ []))
watch_for_file_changes-IsBounded_example = watch_for_file_changes-IsBounded surroundings config (
    record { event = event 8; kernel = one_directory; turns = [] }
    ∷ record { event = event 8; kernel = one_directory; turns = ends (codes "https://h/v1") 0 ∷ [] }
    ∷ [])
