-- ===== src/Config/Ignore.antt =====
-- Which files and directories src/config/config.cpp ignores.
use cdnalizerd.Base.{
  ◌≡◌, ◌↔◌, ◌⊎◌, inl, inr, refl, Bool, true, List, [], ◌∷◌, ◌++◌, arith, ◌||◌, Bool-cases,
}
use cdnalizerd.Base.Text.{Text}
use cdnalizerd.Config.{
  ConfigEntry, found_any, should_ignore_file, should_ignore_directory, add_file_to_ignore,
  add_directory_to_ignore,
}

module _ {Regex : Type 0} (regex_search : Text → Regex → Bool) where
  -- Some expression of the list is found in the name.
  pub data Hit (name : Text) : List Regex → Type 0 where
    here : {r : Regex} {rs : List Regex} → regex_search name r ≡ true → Hit name (r ∷ rs)
    there : {r : Regex} {rs : List Regex} → Hit name rs → Hit name (r ∷ rs)

  found_any→Hit :
      (name : Text) (rs : List Regex) → found_any regex_search name rs ≡ true → Hit name rs
  unfolding found_any
  found_any→Hit name [] h = cc
  found_any→Hit name (r ∷ rs) h = elim (Bool-cases (regex_search name r)) [
    | inl e ↦ here e
    | inr e ↦ there (found_any→Hit name rs (ground arith))
  ]

  Hit→found_any :
      {name : Text} {rs : List Regex} → Hit name rs → found_any regex_search name rs ≡ true
  unfolding found_any
  Hit→found_any (here e) = ground arith
  Hit→found_any (there h) = ground (arith, Hit→found_any h)

  -- A file is ignored exactly when some expression for directories or some expression for files is
  -- found in its name.
  should_ignore_file_iff :
      (e : ConfigEntry Regex) (name : Text)
      → (should_ignore_file regex_search e name ≡ true)
        ↔ (Hit name e.directories_to_ignore ⊎ Hit name e.files_to_ignore)
  unfolding should_ignore_file
  should_ignore_file_iff e name = (
    λ h. elim (Bool-cases (found_any regex_search name e.directories_to_ignore)) [
      | inl d ↦ inl (found_any→Hit name _ d)
      | inr d ↦ inr (found_any→Hit name _ (ground arith))
    ],
    elim [ inl d ↦ ground (arith, Hit→found_any d) | inr f ↦ ground (arith, Hit→found_any f) ],
  )

  found_any-append :
      (name : Text) (rs ss : List Regex)
      → found_any regex_search name (rs ++ ss)
        ≡ (found_any regex_search name rs || found_any regex_search name ss)
  unfolding found_any
  found_any-append name [] ss = refl
  found_any-append name (r ∷ rs) ss = ground (arith, found_any-append name rs ss)

  -- A new expression for files adds exactly the names in which it is found to the ignored files, and
  -- leaves the ignored directories alone; one for directories adds them to both.
  ignore_more :
      (e : ConfigEntry Regex) (r : Regex) (name : Text)
      → (should_ignore_file regex_search (add_file_to_ignore e r) name
          ≡ (should_ignore_file regex_search e name || regex_search name r))
        × (should_ignore_directory regex_search (add_file_to_ignore e r) name
            ≡ should_ignore_directory regex_search e name)
        × (should_ignore_file regex_search (add_directory_to_ignore e r) name
            ≡ (should_ignore_file regex_search e name || regex_search name r))
        × (should_ignore_directory regex_search (add_directory_to_ignore e r) name
            ≡ (should_ignore_directory regex_search e name || regex_search name r))
  unfolding should_ignore_file add_file_to_ignore add_directory_to_ignore
  ignore_more e r name =
      let files = found_any-append name e.files_to_ignore (r ∷ []) in
      let directories = found_any-append name e.directories_to_ignore (r ∷ []) in
      (ground (arith, files), refl, ground (arith, directories), ground (arith, directories))
