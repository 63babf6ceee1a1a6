-- ===== src/Utils.antt =====
-- Path helpers: src/utils.cpp and the template of src/utils.hpp. `stat` and the test of a mode are parameters.
pub mod Laws
use cdnalizerd.Base.{
  ℕ, suc, ◌<◌, Bool, true, false, ◌&&◌, ◌||◌, not, List, [], ◌∷◌, ◌++◌, Option, none, some, ltb,
  leb, ◌==◌, if◌then◌else◌, length, drop,
}
use cdnalizerd.Base.Text.{Text, codes, is_empty, is_prefix}

-- `'/'`
abbrev pub slash : ℕ
slash = 47

-- `back()`, of a text that has one.
unfoldable pub back : Text → Option ℕ
back [] = none
back (x ∷ []) = some x
back (x ∷ y ∷ r) = back (y ∷ r)

unfoldable pub front : Text → Option ℕ
front [] = none
front (x ∷ r) = some x

abbrev pub is_slash : Option ℕ → Bool
is_slash none = false
is_slash (some c) = c == slash

-- `joinPaths(base, extra)` of utils.cpp. `none` is undefined behaviour: `back()` or `front()` of an
-- empty string.
unfoldable pub join_paths : Text → Text → Option Text
unfolding back front
join_paths [] extra = none
join_paths base [] = none
join_paths (b ∷ base) (e ∷ extra) =
    let out = if is_slash (back (b ∷ base)) then b ∷ base else (b ∷ base) ++ slash ∷ [] in
    some (
      if is_slash (front (e ∷ extra)) && ltb 1 (length (e ∷ extra))
      then out ++ extra
      else out ++ e ∷ extra)

-- The function that `joinPaths(T...)` of utils.hpp folds with.
unfoldable pub join_two : Text → Text → Text
unfolding back front
join_two a b =
    if (not (is_empty a) && is_slash (back a)) || (not (is_empty b) && is_slash (front b))
    then a ++ b
    else a ++ slash ∷ b

-- `unJoinPaths`
unfoldable pub un_join_paths : Text → Text → Text
unfolding is_prefix
un_join_paths base extra =
    if leb (length base) (length extra) && is_prefix base extra
    then drop (length base) extra
    else []

-- The fields of a `dirent`.
pub record DirectoryEntry : Type 0 where
  pub d_type : ℕ
  pub d_name : Text

-- `DT_DIR` and `DT_UNKNOWN` of <dirent.h>
abbrev dt_dir : ℕ
dt_dir = 4

abbrev dt_unknown : ℕ
dt_unknown = 0

module _ (stat : Text → Option ℕ) (s_isdir : ℕ → Bool) where
  -- `isDir(const char *)`: `stat` gives the mode, unless it fails.
  unfoldable pub is_dir : Text → Bool
  is_dir path = elim (stat path) [ none ↦ false | some mode ↦ s_isdir mode ]

  -- `isDir(dirent *)`
  unfoldable entry_is_dir : DirectoryEntry → Bool
  unfolding is_dir
  entry_is_dir entry =
      let directory = entry.d_type == dt_dir in
      if not directory && (entry.d_type == dt_unknown) then is_dir entry.d_name else directory
