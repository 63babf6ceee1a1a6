-- ===== src/Config/Entries.antt =====
-- `Config` of src/config/config.hpp and src/config/config.cpp: the entries in order of their local
-- directories.
pub mod Laws
use cdnalizerd.Base.{
  ℕ, zero, suc, Bool, List, [], ◌∷◌, Option, none, some, get_elem?, if◌then◌else◌,
}
use cdnalizerd.Base.Text.{Text, text_lt}
use cdnalizerd.Config.{ConfigEntry, validate}

pub record Config (Regex : Type 0) : Type 0 where
  pub entries : List (ConfigEntry Regex)

-- The exceptions that the class throws.
pub data ConfigError : Type 0 where
  invalid_entry : ConfigError
  path_not_found : Text → ConfigError

pub data Result {ℓ} (A : Type ℓ) : Type ℓ where
  ok : A → Result A
  throws : ConfigError → Result A

module _ {Regex : Type 0} where
  -- `std::lower_bound` by `local_dir`, as a position: the first entry that is not less. On entries in
  -- order, which `add_entry` keeps, that is what the library documents.
  unfoldable pub lower_bound : List (ConfigEntry Regex) → Text → ℕ
  lower_bound [] path = 0
  lower_bound (e ∷ es) path = if text_lt e.local_dir path then suc (lower_bound es path) else 0

  -- `emplace` before a position.
  unfoldable pub emplace :
      ℕ → ConfigEntry Regex → List (ConfigEntry Regex) → List (ConfigEntry Regex)
  emplace zero e es = e ∷ es
  emplace (suc n) e [] = e ∷ []
  emplace (suc n) e (f ∷ es) = f ∷ emplace n e es

  -- `addEntry`
  unfoldable pub add_entry : Config Regex → ConfigEntry Regex → Result (Config Regex)
  unfolding lower_bound emplace
  add_entry c e =
      if validate e
      then ok (record { entries = emplace (lower_bound c.entries e.local_dir) e c.entries })
      else throws invalid_entry

  -- `getEntryByPath`
  unfoldable pub get_entry_by_path : Config Regex → Text → Result (ConfigEntry Regex)
  unfolding lower_bound
  get_entry_by_path c path = elim (get_elem? c.entries (lower_bound c.entries path)) [
    | some e ↦ ok e
    | none ↦ throws (path_not_found path)
  ]
