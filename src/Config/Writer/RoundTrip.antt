-- ===== src/Config/Writer/RoundTrip.antt =====
-- The sample of src/config/config_writer.cpp, read by src/config/config_reader.cpp.
use cdnalizerd.Base.{
  ◌≡◌, refl, sym, ap, ◌∙◌, Bool, true, false, ◌&&◌, not, List, [], ◌∷◌, ◌++◌, Option, none, some,
  if◌then◌else◌, ◌==◌, Each, append_assoc, append-nil, map, ◌>>=◌,
}
use cdnalizerd.Base.Text.{Text, codes, text_eq}
use cdnalizerd.Base.Maps.{find, assign, find-assign_same, text_eq-IsEquality}
use cdnalizerd.Config.{ConfigEntry, validate}
use cdnalizerd.Config.Entries.{add_entry}
use cdnalizerd.Config.Reader.{
  Platform, entry_of_tree, or_empty, tree_of_file, read_file, read_config,
}
use cdnalizerd.Config.Writer.{
  TreeWriter, Disk, put_all, add_all, sample_fields, sample_files, sample_directories, sample_tree,
  text_for, write_entry, write_sample_config,
}

-- A key without a dot, which is no path of several keys.
abbrev is_key : Text → Bool
is_key [] = true
is_key (c ∷ t) = not (c == 46) && is_key t

abbrev pub or_else {ℓ} : {A : Type ℓ} → Option A → Option A → Option A
or_else none o = o
or_else (some a) o = some a

-- What boost documents of trees: `put` sets the value at a key and leaves the other keys, and children,
-- alone; `add_child` adds a child behind the others, and the first one with a key is found; `add` adds
-- a value behind the others; and a printed truth value is read back.
pub record IsTree {P : Platform} (W : TreeWriter P) : Type 0 where
  pub value : P.Ptree → Text
  pub values : P.Ptree → List Text
  pub values-empty_tree : values P.empty_tree ≡ []
  pub values-add : (pt : P.Ptree) (key v : Text) → values (W.add pt key v) ≡ values pt ++ v ∷ []
  pub get-empty_tree : (key : Text) → P.get P.empty_tree key ≡ none
  pub get_children-empty_tree : (key : Text) → P.get_children P.empty_tree key ≡ none
  pub get-put :
      (pt : P.Ptree) (key v other : Text)
      → is_key key ≡ true
      → is_key other ≡ true
      → P.get (W.put pt key v) other ≡ (if text_eq key other then some v else P.get pt other)
  pub get_children-put :
      (pt : P.Ptree) (key v other : Text)
      → is_key key ≡ true
      → is_key other ≡ true
      → P.get_children (W.put pt key v) other ≡ (
          if text_eq key other
          then some (or_empty P (P.get_children pt other))
          else P.get_children pt other)
  pub get-add_child :
      (pt child : P.Ptree) (key other : Text)
      → is_key key ≡ true
      → is_key other ≡ true
      → P.get (W.add_child pt key child) other
        ≡ or_else (P.get pt other) (if text_eq key other then some (value child) else none)
  pub get_children-add_child :
      (pt child : P.Ptree) (key other : Text)
      → is_key key ≡ true
      → is_key other ≡ true
      → P.get_children (W.add_child pt key child) other
        ≡ or_else
            (P.get_children pt other)
            (if text_eq key other then some (values child) else none)
  pub get_bool-print_bool :
      (pt : P.Ptree) (key : Text) (b default : Bool)
      → P.get pt key ≡ some (W.print_bool b)
      → P.get_bool pt key default ≡ b

-- The last of the values that fields give to a key.
abbrev last_of : List (Text × Text) → Text → Option Text → Option Text
last_of [] key o = o
last_of ((k, v) ∷ fields) key o = last_of fields key (if text_eq k key then some v else o)

-- Keys of their own, other than this one.
abbrev IsApart : Text → List (Text × Text) → Type 0
IsApart key fields = Each (λ f. (is_key f.0 ≡ true) × (text_eq f.0 key ≡ false)) fields

abbrev AreKeys : List (Text × Text) → Type 0
AreKeys fields = Each (λ f. is_key f.0 ≡ true) fields

module _ {P : Platform} {W : TreeWriter P} (law : IsTree W) where
  get-put_all :
      (fields : List (Text × Text)) (pt : P.Ptree) (key : Text)
      → AreKeys fields
      → is_key key ≡ true
      → P.get (put_all W fields pt) key ≡ last_of fields key (P.get pt key)
  unfolding put_all
  get-put_all [] pt key h k = refl
  get-put_all ((f, v) ∷ fields) pt key (e, h) k =
      get-put_all fields (W.put pt f v) key h k
      ∙ ap (last_of fields key) (law.get-put pt f v key e k)

  get_children-put_all :
      (fields : List (Text × Text)) (pt : P.Ptree) (key : Text)
      → IsApart key fields
      → is_key key ≡ true
      → P.get_children (put_all W fields pt) key ≡ P.get_children pt key
  unfolding put_all
  get_children-put_all [] pt key h k = refl
  get_children-put_all ((f, v) ∷ fields) pt key ((e, other), h) k =
      get_children-put_all fields (W.put pt f v) key h k
      ∙ law.get_children-put pt f v key e k
      ∙ rw (other) refl

  values-add_all :
      (fields : List (Text × Text)) (pt : P.Ptree)
      → law.values (add_all W fields pt) ≡ law.values pt ++ map (λ f. f.1) fields
  unfolding add_all
  values-add_all [] pt = sym (append-nil (law.values pt))
  values-add_all ((f, v) ∷ fields) pt =
      values-add_all fields (W.add pt f v)
      ∙ ap (λ l. l ++ map (λ f. f.1) fields) (law.values-add pt f v)
      ∙ append_assoc (law.values pt) (v ∷ []) (map (λ f. f.1) fields)

  -- Keys that are not of the two children.
  IsField : Text → Type 0
  IsField key =
      (is_key key ≡ true)
      × (text_eq (codes "files-to-ignore") key ≡ false)
      × (text_eq (codes "directories-to-ignore") key ≡ false)

  apart_none :
      (key : Text)
      → IsApart key (sample_fields W)
      → is_key key ≡ true
      → P.get_children (put_all W (sample_fields W) P.empty_tree) key ≡ none
  apart_none key h k =
      get_children-put_all (sample_fields W) P.empty_tree key h k ∙ law.get_children-empty_tree key

  or_else-none {ℓ} : {A : Type ℓ} (o : Option A) → or_else o none ≡ o
  or_else-none none = refl
  or_else-none (some a) = refl

  or_else_skip {ℓ} :
      {A : Type ℓ} (b : Bool) (o x : Option A) → b ≡ false → or_else o (if b then x else none) ≡ o
  or_else_skip b o x h = rw (h) (or_else-none o)

  get-sample_tree :
      (key : Text) → IsField key → P.get (sample_tree W) key ≡ last_of (sample_fields W) key none
  unfolding sample_tree IsField
  get-sample_tree key (k, f, d) =
      law.get-add_child _ _ (codes "directories-to-ignore") key refl k
      ∙ or_else_skip _ _ _ d
      ∙ law.get-add_child _ _ (codes "files-to-ignore") key refl k
      ∙ or_else_skip _ _ _ f
      ∙ get-put_all (sample_fields W) P.empty_tree key
          (refl, (refl, (refl, (refl, (refl, (refl, (refl, tt))))))) k
      ∙ ap (last_of (sample_fields W) key) (law.get-empty_tree key)

  files_of-sample_tree :
      P.get_children (sample_tree W) (codes "files-to-ignore") ≡ some (map (λ f. f.1) sample_files)
  unfolding sample_tree text_eq
  files_of-sample_tree =
      law.get_children-add_child _ _ (codes "directories-to-ignore") (codes "files-to-ignore") refl
        refl
      ∙ or_else-none _
      ∙ law.get_children-add_child _ _ (codes "files-to-ignore") (codes "files-to-ignore") refl refl
      ∙ ap (λ o. or_else o (some (law.values (add_all W sample_files P.empty_tree))))
          (apart_none (codes "files-to-ignore")
            (
              (refl, refl),
              (
                (refl, refl),
                ((refl, refl), ((refl, refl), ((refl, refl), ((refl, refl), ((refl, refl), tt))))),
              ),
            )
            refl)
      ∙ ap some (values-add_all sample_files P.empty_tree)
      ∙ ap (λ l. some (l ++ map (λ f. f.1) sample_files)) law.values-empty_tree

  directories_of-sample_tree :
      P.get_children (sample_tree W) (codes "directories-to-ignore")
      ≡ some (map (λ f. f.1) sample_directories)
  unfolding sample_tree text_eq
  directories_of-sample_tree =
      law.get_children-add_child _ _ (codes "directories-to-ignore") (codes "directories-to-ignore")
        refl refl
      ∙ ap (λ o. or_else o (some (law.values (add_all W sample_directories P.empty_tree))))
          (law.get_children-add_child _ _ (codes "files-to-ignore") (codes "directories-to-ignore")
              refl refl
            ∙ or_else-none _
            ∙ apart_none (codes "directories-to-ignore")
                (
                  (refl, refl),
                  (
                    (refl, refl),
                    (
                      (refl, refl),
                      ((refl, refl), ((refl, refl), ((refl, refl), ((refl, refl), tt)))),
                    ),
                  ),
                )
                refl)
      ∙ ap some (values-add_all sample_directories P.empty_tree)
      ∙ ap (λ l. some (l ++ map (λ f. f.1) sample_directories)) law.values-empty_tree

  field :
      (key value : Text)
      → IsField key
      → last_of (sample_fields W) key none ≡ some value
      → P.get (sample_tree W) key ≡ some value
  field key value h e = get-sample_tree key h ∙ e

  -- Each of these expressions can be compiled.
  abbrev pub Compiles : (Text → P.Regex) → List (Text × Text) → Type 0
  Compiles regex fields = Each (λ f. P.regex f.1 ≡ some (regex f.1)) fields

  -- The entry that the sample describes.
  abbrev pub sample_entry : Bool → (Text → P.Regex) → ConfigEntry P.Regex
  sample_entry garbage regex = record {
    username = codes "mister_awesome";
    apikey = codes "xxxyyyzzz-long-key";
    region = codes "DFW";
    container = codes "cloud-files-container";
    snet = false;
    move = garbage;
    local_dir = codes "/var/www/mysite/images/";
    remote_dir = codes "/images/";
    files_to_ignore = map (λ f. regex f.1) sample_files;
    directories_to_ignore = map (λ f. regex f.1) sample_directories;
  }

  entry_of_tree-sample_tree :
      (garbage : Bool) (regex : Text → P.Regex)
      → Compiles regex sample_files
      → Compiles regex sample_directories
      → entry_of_tree P garbage (sample_tree W) ≡ some (sample_entry garbage regex)
  unfolding entry_of_tree text_eq IsField
  entry_of_tree-sample_tree garbage regex (f1, (f2, (f3, (f4, _)))) (d1, (d2, (d3, (d4, _)))) =
      let username = field (codes "username") (codes "mister_awesome") (refl, refl, refl) refl in
      let apikey = field (codes "apikey") (codes "xxxyyyzzz-long-key") (refl, refl, refl) refl in
      let region = field (codes "region") (codes "DFW") (refl, refl, refl) refl in
      let container =
        field (codes "container") (codes "cloud-files-container") (refl, refl, refl) refl in
      let local_dir =
        field (codes "local_dir") (codes "/var/www/mysite/images/") (refl, refl, refl) refl in
      let remote_dir = field (codes "remote_dir") (codes "/images/") (refl, refl, refl) refl in
      let snet =
        law.get_bool-print_bool (sample_tree W) (codes "snet") false false
          (field (codes "snet") (W.print_bool false) (refl, refl, refl) refl) in
      rw
        (
          username, apikey, region, container, local_dir, remote_dir, snet, files_of-sample_tree,
          directories_of-sample_tree, f1, f2, f3, f4, d1, d2, d3, d4, entry_of_tree,
        )
        refl

  read_file-sample_tree :
      (garbage : Bool) (regex : Text → P.Regex) (filename : Text)
      → Compiles regex sample_files
      → Compiles regex sample_directories
      → tree_of_file P filename ≡ some (sample_tree W)
      → read_file P garbage (record { entries = [] }) filename
        ≡ record { entries = sample_entry garbage regex ∷ [] }
  unfolding read_file add_entry validate
  read_file-sample_tree garbage regex filename f d t =
      rw (t, read_file, entry_of_tree-sample_tree garbage regex f d) refl

  -- The sample that the writer makes is read back. Take a name that ends in .json, of no file, where
  -- one can be made. When the JSON writer gives a text for the sample tree, the JSON reader reads a file
  -- by parsing its text, that text parses to the tree that was written, and the eight expressions of
  -- the sample compile: write_sample_config succeeds, and read_config of the name then gives a
  -- configuration of one entry, with the sample's values.
  pub write_sample_config_read :
      (can_open : Text → Bool) (parse : Text → Option P.Ptree) (garbage : Bool)
      (regex : Text → P.Regex) (filename text : Text) (disk : Disk)
      → find text_eq disk filename ≡ none
      → can_open filename ≡ true
      → P.iends_with filename (codes ".ini") ≡ false
      → P.iends_with filename (codes ".json") ≡ true
      → P.is_directory filename ≡ some false
      → W.write_json (sample_tree W) ≡ some text
      → P.read_json filename
        ≡ (find text_eq (write_sample_config W can_open filename disk).1 filename >>= parse)
      → parse text ≡ some (sample_tree W)
      → Compiles regex sample_files
      → Compiles regex sample_directories
      → ((write_sample_config W can_open filename disk).0 ≡ true)
        × (read_config P garbage filename
            ≡ some (record { entries = sample_entry garbage regex ∷ [] }))
  unfolding write_sample_config write_entry text_for tree_of_file read_config
  write_sample_config_read can_open parse garbage regex filename text disk free opens ini json dir
        written reads parsed f d =
      let wrote : write_sample_config W can_open filename disk
          ≡ (true, assign text_eq disk filename text) =
        rw (free, opens, ini, json, written, write_sample_config) refl in
      let read : P.read_json filename ≡ some (sample_tree W) =
        reads
        ∙ ap (λ r. find text_eq r.1 filename >>= parse) wrote
        ∙ ap (λ o. o >>= parse) (find-assign_same text_eq-IsEquality disk filename text)
        ∙ parsed in
      let tree : tree_of_file P filename ≡ some (sample_tree W) = rw (ini, json) read in
      (
        ap (λ r. r.0) wrote,
        rw (dir) (ap some (read_file-sample_tree garbage regex filename f d tree)),
      )
