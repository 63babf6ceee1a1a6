-- ===== src/Config.antt =====
-- `ConfigEntry` of src/config/config.hpp and src/config/config.cpp. The type of regular expressions
-- and `std::regex_search` are parameters.
pub mod Ignore
pub mod Order
pub mod Entries
pub mod Reader
pub mod Writer
use cdnalizerd.Base.{Bool, true, false, ◌&&◌, ◌||◌, not, List, [], ◌∷◌, ◌++◌, if◌then◌else◌}
use cdnalizerd.Base.Text.{Text, is_empty, text_eq, text_lt}

pub record ConfigEntry (Regex : Type 0) : Type 0 where
  pub username : Text
  pub apikey : Text
  pub region : Text
  pub container : Text
  pub snet : Bool
  pub move : Bool
  pub local_dir : Text
  pub remote_dir : Text
  pub files_to_ignore : List Regex
  pub directories_to_ignore : List Regex

-- `operator<` on `bool`.
abbrev bool_lt : Bool → Bool → Bool
bool_lt a b = not a && b

abbrev bool_eq : Bool → Bool → Bool
bool_eq true b = b
bool_eq false b = not b

module _ {Regex : Type 0} where
  -- `validate`
  unfoldable pub validate : ConfigEntry Regex → Bool
  validate e =
      not (is_empty e.username)
      && not (is_empty e.apikey)
      && not (is_empty e.region)
      && not (is_empty e.container)
      && not (is_empty e.local_dir)
      && not (is_empty e.remote_dir)

  -- `addFileToIgnore`
  unfoldable pub add_file_to_ignore : ConfigEntry Regex → Regex → ConfigEntry Regex
  add_file_to_ignore e file = record e { files_to_ignore = e.files_to_ignore ++ file ∷ [] }

  -- `addDirectoryToIgnore`
  unfoldable pub add_directory_to_ignore : ConfigEntry Regex → Regex → ConfigEntry Regex
  add_directory_to_ignore e directory = record e {
    directories_to_ignore = e.directories_to_ignore ++ directory ∷ [];
  }

  -- `operator<(const ConfigEntry &)`
  unfoldable pub entry_lt : ConfigEntry Regex → ConfigEntry Regex → Bool
  entry_lt a b =
      text_lt a.local_dir b.local_dir
      || text_lt a.remote_dir b.remote_dir
      || text_lt a.username b.username
      || text_lt a.region b.region
      || text_lt a.container b.container
      || text_lt a.apikey b.apikey
      || bool_lt a.snet b.snet
      || bool_lt a.move b.move

  -- `operator==(const ConfigEntry &)`
  unfoldable pub entry_eq : ConfigEntry Regex → ConfigEntry Regex → Bool
  entry_eq a b =
      text_eq a.local_dir b.local_dir
      && text_eq a.remote_dir b.remote_dir
      && text_eq a.username b.username
      && text_eq a.region b.region
      && text_eq a.container b.container
      && text_eq a.apikey b.apikey
      && bool_eq a.snet b.snet
      && bool_eq a.move b.move

  module _ (regex_search : Text → Regex → Bool) where
    -- A loop that returns true at the first expression that is found.
    unfoldable pub found_any : Text → List Regex → Bool
    found_any name [] = false
    found_any name (regex ∷ regexes) =
        if regex_search name regex then true else found_any name regexes

    -- `shouldIgnoreDirectory`
    unfoldable pub should_ignore_directory : ConfigEntry Regex → Text → Bool
    unfolding found_any
    should_ignore_directory e dir_name = found_any dir_name e.directories_to_ignore

    -- `shouldIgnoreFile`
    unfoldable pub should_ignore_file : ConfigEntry Regex → Text → Bool
    unfolding should_ignore_directory
    should_ignore_file e file_name =
        if should_ignore_directory e file_name then true else found_any file_name e.files_to_ignore
