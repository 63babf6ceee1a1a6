-- ===== src/Tests/Watches.antt =====
-- Watches and events at concrete data.
use cdnalizerd.Base.{ℕ, ◌≡◌, refl, false, List, [], ◌∷◌, ◌++◌, if◌then◌else◌, Option, none, some}
use cdnalizerd.Base.Text.{Text, codes, text_eq}
use cdnalizerd.Base.Maps.{find}
use cdnalizerd.Config.{ConfigEntry}
use cdnalizerd.Url.{destination}
use cdnalizerd.Url.Parser.{Url, empty_url, parsed, parse}
use cdnalizerd.Url.Join.{join_slashes}
use cdnalizerd.Url.Encode.{urlencode}
use cdnalizerd.Account.{Rackspace}
use cdnalizerd.Inotify.{Watch, Instance, new_instance, Event}
use cdnalizerd.Inotify.Laws.{IsPaired, with_watch-IsPaired}
use cdnalizerd.Watcher.{Files, Watcher, create_inotify_watches}
use cdnalizerd.Watcher.Jobs.{IsFound}
use cdnalizerd.Watcher.Nested.{create_inotify_watches-shared}

new_instance-IsPaired : IsPaired new_instance
unfolding find
new_instance-IsPaired = record { of_path = λ p h e. cc; of_handle = λ h w e. cc }

abbrev pub watch : Watch
watch = record { handle = 1; path = codes "/d" }

abbrev pub one : Instance
one = record { watches = (1, watch) ∷ []; paths = (codes "/d", 1) ∷ []; removed = [] }

one-IsPaired : IsPaired one
unfolding find
one-IsPaired = with_watch-IsPaired new_instance watch new_instance-IsPaired refl refl

-- Nothing is ignored, every file has one byte, and a relative path is the one in this test.
abbrev pub files : Files ℕ
files = record {
  regex_search = λ name regex. false;
  path_div = λ a b. a ++ b'/' ∷ b;
  relative = λ p base. some (codes "f");
  file_size = λ p. some 1;
  subdirectories = λ p. some [];
}

abbrev pub entry : ConfigEntry ℕ
entry = record {
  username = codes "u";
  apikey = codes "k";
  region = codes "r";
  container = codes "c";
  snet = false;
  move = false;
  local_dir = codes "/d";
  remote_dir = codes "x";
  files_to_ignore = [];
  directories_to_ignore = [];
}

abbrev pub storage : Url
storage = record empty_url { raw = codes "http://h/a" }

abbrev pub accounts : List (Text × Rackspace)
accounts =
    (codes "u", record { token = []; public_urls = (codes "r", storage) ∷ []; private_urls = [] })
    ∷ []

abbrev pub start : Watcher ℕ
start = record {
  inotify = one;
  watch_to_config = (1, entry) ∷ [];
  workers = record { workers = [] };
  next_id = 0;
}

abbrev pub kernel : Text → Option ℕ
kernel path = if text_eq path (codes "/d") then some 1 else some 2

-- `IN_CLOSE_WRITE`, `IN_DELETE`, and `IN_MOVED_FROM`, of the file f.
abbrev pub event : ℕ → Event
event mask = record { wd = 1; mask = mask; cookie = 0; name = codes "f" }

pub event-IsFound :
    (mask : ℕ) → IsFound files accounts start (event mask) watch entry storage (codes "f")
unfolding find cdnalizerd.Account.get_url text_eq
event-IsFound mask = record {
  rs = record { token = []; public_urls = (codes "r", storage) ∷ []; private_urls = [] };
  watch_found = refl;
  entry_found = refl;
  account_found = refl;
  url_found = refl;
  relative_found = refl;
}

abbrev pub remote : Url
remote = record {
  raw = codes "http://h/a/c/x/f";
  scheme = codes "http://";
  user = [];
  password = [];
  host = codes "h";
  port = [];
  path = codes "/a/c/x/f";
  search = [];
  path_and_search = codes "/a/c/x/f";
}

pub remote_address : destination storage (codes "c") (codes "x") (codes "f") ≡ some (parsed remote)
unfolding destination join_slashes urlencode parse
remote_address = refl

abbrev nobody : Watcher ℕ
nobody = record start { inotify = new_instance; watch_to_config = [] }

create_inotify_watches-shared_example :
    create_inotify_watches files kernel nobody (entry ∷ record entry { container = codes "e" } ∷ [])
    ≡ none
unfolding cdnalizerd.Config.should_ignore_directory
create_inotify_watches-shared_example =
    create_inotify_watches-shared files kernel nobody entry (record entry { container = codes "e" })
      [] refl refl refl
