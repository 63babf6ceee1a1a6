-- ===== src/Config/Reader.antt =====
-- src/config/config_reader.cpp. Property trees, file access and `std::regex` are parameters.
pub mod Laws
use cdnalizerd.Base.{
  Bool, true, false, List, [], ◌∷◌, Option, none, some, if◌then◌else◌, ◌>>=◌, ◌≡◌,
}
use cdnalizerd.Base.Text.{Text, codes}
use cdnalizerd.Config.{ConfigEntry, add_file_to_ignore, add_directory_to_ignore}
use cdnalizerd.Config.Entries.{Config, Result, ok, throws, add_entry}

-- boost::property_tree, boost::filesystem, `boost::iends_with` and `std::regex` as the reader uses
-- them. `none` is an exception.
pub record Platform : Type 1 where
  pub Regex : Type 0
  pub Ptree : Type 0
  -- The constructor of `std::regex`.
  pub regex : Text → Option Regex
  -- `ptree pt;`
  pub empty_tree : Ptree
  -- `get<std::string>(path)`
  pub get : Ptree → Text → Option Text
  -- `get(path, default)` at `bool`
  pub get_bool : Ptree → Text → Bool → Bool
  -- `get_child_optional(path)`, with the value of each child
  pub get_children : Ptree → Text → Option (List Text)
  pub read_ini : Text → Option Ptree
  pub read_json : Text → Option Ptree
  pub read_xml : Text → Option Ptree
  pub read_info : Text → Option Ptree
  pub iends_with : Text → Text → Bool
  pub is_directory : Text → Option Bool
  -- The names that a `directory_iterator` passes, in its order.
  pub directory : Text → Option (List Text)

-- What the documentation of boost says of an empty tree: it has no value at a path.
pub record IsLawful (P : Platform) : Type 0 where
  pub get-empty_tree : (key : Text) → P.get P.empty_tree key ≡ none

module _ (P : Platform) where
  open P use {
    Regex, Ptree, regex, empty_tree, get, get_bool, get_children, read_ini, read_json, read_xml,
    read_info, iends_with, is_directory, directory,
  }

  -- The loops that compile the expressions; an invalid one throws.
  unfoldable add_files : ConfigEntry Regex → List Text → Option (ConfigEntry Regex)
  unfolding add_file_to_ignore
  add_files e [] = some e
  add_files e (t ∷ ts) = elim (regex t) [
    | none ↦ none
    | some r ↦ add_files (add_file_to_ignore e r) ts
  ]

  unfoldable add_directories : ConfigEntry Regex → List Text → Option (ConfigEntry Regex)
  unfolding add_directory_to_ignore
  add_directories e [] = some e
  add_directories e (t ∷ ts) = elim (regex t) [
    | none ↦ none
    | some r ↦ add_directories (add_directory_to_ignore e r) ts
  ]

  abbrev pub or_empty : Option (List Text) → List Text
  or_empty none = []
  or_empty (some ts) = ts

  -- `parseTree`, up to the entry that it adds. The member `move` is left uninitialised: its value
  -- comes from outside.
  unfoldable pub entry_of_tree : Bool → Ptree → Option (ConfigEntry Regex)
  unfolding add_files add_directories
  entry_of_tree garbage pt = do
    username ← get pt (codes "username")
    apikey ← get pt (codes "apikey")
    region ← get pt (codes "region")
    container ← get pt (codes "container")
    local_dir ← get pt (codes "local_dir")
    remote_dir ← get pt (codes "remote_dir")
    let entry : ConfigEntry Regex = record {
      username = username;
      apikey = apikey;
      region = region;
      container = container;
      snet = get_bool pt (codes "snet") false;
      move = garbage;
      local_dir = local_dir;
      remote_dir = remote_dir;
      files_to_ignore = [];
      directories_to_ignore = [];
    }
    with_files ← add_files entry (or_empty (get_children pt (codes "files-to-ignore")))
    add_directories with_files (or_empty (get_children pt (codes "directories-to-ignore")))

  -- `parseTree`; `none` is any exception.
  unfoldable parse_tree : Bool → Config Regex → Ptree → Option (Config Regex)
  parse_tree garbage config pt = do
    entry ← entry_of_tree garbage pt
    elim (add_entry config entry) [ ok c ↦ some c | throws _ ↦ none ]

  -- The tree of a file, by its extension. Without a known one the tree stays empty.
  unfoldable pub tree_of_file : Text → Option Ptree
  tree_of_file filename =
      if iends_with filename (codes ".ini")
      then read_ini filename
      else if iends_with filename (codes ".json")
      then read_json filename
      else if iends_with filename (codes ".xml")
      then read_xml filename
      else if iends_with filename (codes ".info")
      then read_info filename
      else some empty_tree

  -- `readFile`: every exception is logged and dropped.
  unfoldable pub read_file : Bool → Config Regex → Text → Config Regex
  unfolding parse_tree
  read_file garbage config filename = elim (tree_of_file filename >>= parse_tree garbage config) [
    | none ↦ config
    | some c ↦ c
  ]

  unfoldable pub read_files : Bool → Config Regex → List Text → Config Regex
  read_files garbage config [] = config
  read_files garbage config (f ∷ fs) = read_files garbage (read_file garbage config f) fs

  -- `read_config`; `none` is an exception that is thrown on.
  unfoldable pub read_config : Bool → Text → Option (Config Regex)
  read_config garbage dir_name = do
    is_dir ← is_directory dir_name
    (if is_dir
        then (directory dir_name >>= λ fs. some (read_files garbage (record { entries = [] }) fs))
        else some (read_file garbage (record { entries = [] }) dir_name))
