-- ===== src/Config/Reader/Laws.antt =====
-- What a configuration holds after src/config/config_reader.cpp has read it.
use mathlib.Core.List.{Perm, perm_append_comm, append_assoc}
use mathlib.Core.List.Perm
use cdnalizerd.Base.{
  ◌≡◌, refl, ap, ◌∙◌, inl, inr, Bool, true, false, List, [], ◌∷◌, ◌++◌, Option, none, some, arith,
  append-nil, if◌then◌else◌,
}
use cdnalizerd.Base.Text.{Text, codes}
use cdnalizerd.Config.{ConfigEntry, validate}
use cdnalizerd.Config.Entries.{Config, ok, throws, add_entry}
use cdnalizerd.Config.Entries.Laws.{IsValid, add_entry-IsValid}
use cdnalizerd.Config.Reader.{
  Platform, IsLawful, entry_of_tree, tree_of_file, read_file, read_files, read_config,
}

swap_front {ℓ} :
    {A : Type ℓ} (a b c d e : List A) → Perm e (b ++ d) → Perm d (a ++ c) → Perm e ((a ++ b) ++ c)
swap_front a b c d e p q = Perm.trans p (
    Perm.trans (Perm.append_left b q)
      (rw (← append_assoc b a c) (Perm.append_right c (perm_append_comm b a))))

module _ (P : Platform) (garbage : Bool) where
  -- The entry that a tree gives, if it is valid.
  abbrev entry_if_valid : Option (ConfigEntry P.Regex) → List (ConfigEntry P.Regex)
  entry_if_valid none = []
  entry_if_valid (some e) = if validate e then e ∷ [] else []

  abbrev entry_in : Option P.Ptree → Option (ConfigEntry P.Regex)
  entry_in none = none
  entry_in (some pt) = entry_of_tree P garbage pt

  -- The entry that a file contributes: none if the file cannot be read or parsed, if a field is
  -- missing or an expression is invalid, or if the entry is not valid.
  contributed : Text → List (ConfigEntry P.Regex)
  contributed filename = entry_if_valid (entry_in (tree_of_file P filename))

  pub contributed_all : List Text → List (ConfigEntry P.Regex)
  contributed_all [] = []
  contributed_all (f ∷ fs) = contributed f ++ contributed_all fs

  abbrev Extends : Config P.Regex → List (ConfigEntry P.Regex) → Config P.Regex → Type 0
  Extends c es d = Perm d.entries (es ++ c.entries) × IsValid d

  add_parsed : Config P.Regex → Option (ConfigEntry P.Regex) → Config P.Regex
  add_parsed c none = c
  add_parsed c (some e) = elim (add_entry c e) [ ok d ↦ d | throws _ ↦ c ]

  add_parsed-Extends :
      (c : Config P.Regex) (o : Option (ConfigEntry P.Regex))
      → IsValid c
      → Extends c (entry_if_valid o) (add_parsed c o)
  unfolding add_parsed
  add_parsed-Extends c none v = (Perm.refl c.entries, v)
  add_parsed-Extends c (some e) v = elim (add_entry-IsValid c e v) [
    | inl (bad, r) ↦ rw (r, add_parsed, bad) (Perm.refl c.entries, v)
    | inr (d, good, r, p, w) ↦ rw (r, add_parsed, good) (p, w)
  ]

  read_file-add_parsed :
      (c : Config P.Regex) (filename : Text)
      → read_file P garbage c filename ≡ add_parsed c (entry_in (tree_of_file P filename))
  unfolding read_file add_parsed
  read_file-add_parsed c filename = ground arith

  read_file-Extends :
      (c : Config P.Regex) (filename : Text)
      → IsValid c
      → Extends c (contributed filename) (read_file P garbage c filename)
  unfolding contributed
  read_file-Extends c filename v =
      rw (read_file-add_parsed c filename)
        (add_parsed-Extends c (entry_in (tree_of_file P filename)) v)

  read_files-Extends :
      (c : Config P.Regex) (fs : List Text)
      → IsValid c
      → Extends c (contributed_all fs) (read_files P garbage c fs)
  unfolding read_files contributed_all
  read_files-Extends c [] v = (Perm.refl c.entries, v)
  read_files-Extends c (f ∷ fs) v =
      let one = read_file-Extends c f v in
      let more = read_files-Extends (read_file P garbage c f) fs one.1 in
      (swap_front (contributed f) (contributed_all fs) c.entries _ _ more.0 one.0, more.1)

  abbrev no_entries : Config P.Regex
  no_entries = record { entries = [] }

  -- Reading a directory whose names can be listed always succeeds. The entries are valid and in order
  -- of their local directories, and are exactly those that the files contribute, each as often as it
  -- is contributed: a file that cannot be used changes nothing.
  pub read_config-directory :
      (dir_name : Text) (fs : List Text)
      → P.is_directory dir_name ≡ some true
      → P.directory dir_name ≡ some fs
      → (c : Config P.Regex) × (read_config P garbage dir_name ≡ some c)
        × IsValid c
        × Perm c.entries (contributed_all fs)
  unfolding read_config
  read_config-directory dir_name fs h k =
      let more = read_files-Extends no_entries fs (record { sorted = tt; valid = tt }) in
      (
        read_files P garbage no_entries fs,
        rw (h, k) refl,
        more.1,
        rw (append-nil (contributed_all fs)) at more.0,
      )

  no_tree :
      (filename : Text)
      → P.iends_with filename (codes ".ini") ≡ false
      → P.iends_with filename (codes ".json") ≡ false
      → P.iends_with filename (codes ".xml") ≡ false
      → P.iends_with filename (codes ".info") ≡ false
      → tree_of_file P filename ≡ some P.empty_tree
  unfolding tree_of_file
  no_tree filename h1 h2 h3 h4 = rw (h1, h2, h3, h4) refl

  no_entry : IsLawful P → entry_of_tree P garbage P.empty_tree ≡ none
  unfolding entry_of_tree
  no_entry l = rw (l.get-empty_tree (codes "username")) refl

  -- Reading a single file whose name has none of the four extensions always gives a configuration
  -- with no entry, whatever the file holds.
  read_config-unknown_extension :
      (filename : Text)
      → IsLawful P
      → P.is_directory filename ≡ some false
      → P.iends_with filename (codes ".ini") ≡ false
      → P.iends_with filename (codes ".json") ≡ false
      → P.iends_with filename (codes ".xml") ≡ false
      → P.iends_with filename (codes ".info") ≡ false
      → read_config P garbage filename ≡ some no_entries
  unfolding read_config add_parsed
  read_config-unknown_extension filename l d h1 h2 h3 h4 =
      rw (d, read_config)
        (ap some (
          read_file-add_parsed no_entries filename
          ∙ ap (λ t. add_parsed no_entries (entry_in t)) (no_tree filename h1 h2 h3 h4)
          ∙ ap (add_parsed no_entries) (no_entry l)))
