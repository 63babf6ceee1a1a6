-- ===== src/Tests/Syncs.antt =====
-- The synchronisation at concrete data: a directory with a directory and an empty file in it.
use cdnalizerd.Base.{
  ℕ, ◌≡◌, inl, inr, refl, true, false, List, [], ◌∷◌, ◌++◌, some, if◌then◌else◌, ◌>>=◌, Each, drop,
}
use cdnalizerd.Base.Text.{Text, codes, text_eq, text_lt}
use cdnalizerd.Config.{ConfigEntry}
use cdnalizerd.Utils.{un_join_paths}
use cdnalizerd.Url.Parser.{Url, empty_url}
use cdnalizerd.Account.{Rackspace}
use cdnalizerd.Sync.{RemoteFile, Disk, Queues, sync_pages}
use cdnalizerd.Sync.Merge.Paths.{View, IsView, filter_paths}
use cdnalizerd.Sync.Merge.{is_wanted, upload_all, IsNewOrDir, sync_pages-merge}
use cdnalizerd.Sync.Laws.{InStep, both_end, directory, same}

abbrev tail_of : Text → Text
tail_of path = if text_eq path (codes "/d/s") then codes "s" else codes "s/f"

abbrev disk : Disk ℕ
disk = record {
  regex_search = λ name regex. false;
  listing = λ p. some (codes "/d/s" ∷ codes "/d/s/f" ∷ []);
  sort = λ paths. paths;
  is_directory = λ p. some (text_eq p (codes "/d/s"));
  relative = λ p base. some (tail_of p);
  file_size = λ p. some 0;
  last_write_time = λ p. some 5;
  remote_time = λ t. some 7;
}

abbrev config : ConfigEntry ℕ
config = record {
  username = codes "u";
  apikey = codes "k";
  region = codes "r";
  container = codes "c";
  snet = true;
  move = false;
  local_dir = codes "/d";
  remote_dir = codes "x";
  files_to_ignore = [];
  directories_to_ignore = [];
}

abbrev storage : Url
storage = record empty_url { raw = codes "http://h/a" }

abbrev account : Rackspace
account = record { token = []; public_urls = []; private_urls = (codes "r", storage) ∷ [] }

abbrev at_path : Text → Url
at_path path = record {
  raw = codes "http://h" ++ path;
  scheme = codes "http://";
  user = [];
  password = [];
  host = codes "h";
  port = [];
  path = path;
  search = [];
  path_and_search = path;
}

abbrev dest : Text → Url
dest path =
    at_path (codes "/a/c/x/" ++ (if text_eq path (codes "/d/s") then codes "s" else codes "s/f"))

abbrev idle_queues : Queues
idle_queues = record { workers = record { workers = [] }; next_id = 0 }

abbrev remote_f : RemoteFile
remote_f = record { name = codes "x/s/f"; last_modified = codes "2016-01-01T00:00:00" }

one_page : InStep disk storage config (remote_f ∷ []) (codes "/d/s" ∷ codes "/d/s/f" ∷ [])
unfolding text_eq un_join_paths
one_page = directory refl (same (codes "s/f") 5 7 refl refl refl refl refl refl both_end)

-- A disk with the directory s and the files s/f and t, of one byte each, where s/f is on the server
-- and older there.
abbrev tails : Text → Text
tails path = drop 3 path

abbrev filled_disk : Disk ℕ
filled_disk = record disk {
  relative = λ p base. some (tails p);
  file_size = λ p. some 1;
  last_write_time = λ p. some 9;
}

abbrev view : View
view = record {
  is_dir = λ p. text_eq p (codes "/d/s");
  tail = tails;
  size = λ p. 1;
  time = λ p. 9;
  remote_time = λ t. 7;
}

view-IsView : IsView filled_disk (codes "/d") view
view-IsView = record {
  is_directory = λ p. refl;
  relative = λ p. refl;
  file_size = λ p. refl;
  last_write_time = λ p. refl;
  remote_time = λ t. refl;
}

abbrev local_paths : List Text
local_paths = codes "/d/s" ∷ codes "/d/s/f" ∷ codes "/d/t" ∷ []

sync_pages-merge_example :
    (taken : List Text) × (left : List Text) × (local_paths ≡ taken ++ left)
    × Each (IsNewOrDir filled_disk storage config view (remote_f ∷ [])) left
    × ((q : Queues)
        → sync_pages filled_disk storage config ((remote_f ∷ []) ∷ []) local_paths q ≡ (
            upload_all filled_disk storage config view
              (filter_paths (is_wanted filled_disk storage config view (remote_f ∷ [])) taken)
              q
            >>= λ r. some (left, r)))
unfolding text_eq text_lt
sync_pages-merge_example =
    sync_pages-merge filled_disk storage config view view-IsView ((remote_f ∷ []) ∷ []) local_paths
      (tt, tt) (inl refl, (inr (inr refl, tt), (inr tt, tt)))
