-- ===== src/Config/Writer.antt =====
-- src/config/config_writer.cpp. The files are a map of names to texts; the property trees are those of
-- the reader, and what else boost does with them is a parameter.
pub mod RoundTrip
use cdnalizerd.Base.{Bool, true, false, List, [], ◌∷◌, Option, none, some, if◌then◌else◌}
use cdnalizerd.Base.Text.{Text, codes, text_eq}
use cdnalizerd.Base.Maps.{find, assign}
use cdnalizerd.Config.Reader.{Platform}

pub record TreeWriter (P : Platform) : Type 0 where
  -- `put` and `add` at `std::string`, and `add_child`.
  pub put : P.Ptree → Text → Text → P.Ptree
  pub add : P.Ptree → Text → Text → P.Ptree
  pub add_child : P.Ptree → Text → P.Ptree → P.Ptree
  -- The text that `put` at `bool` stores.
  pub print_bool : Bool → Text
  -- The writers give the text of a file, or throw.
  pub write_ini : P.Ptree → Option Text
  pub write_json : P.Ptree → Option Text
  pub write_info : P.Ptree → Option Text
  pub write_xml : P.Ptree → Option Text

-- The text of each file.
abbrev pub Disk : Type 0
Disk = List (Text × Text)

abbrev pub sample_files : List (Text × Text)
sample_files =
    (codes "1", codes ".*php$")
    ∷ (codes "2", codes ".*conf.*xml$")
    ∷ (codes "3", codes ".*conf.*ini$")
    ∷ (codes "3", codes ".*tmp$")
    ∷ []

abbrev pub sample_directories : List (Text × Text)
sample_directories =
    (codes "1", codes "/conf/")
    ∷ (codes "2", codes "/config/")
    ∷ (codes "3", codes "/settings/")
    ∷ (codes "4", codes "/tmp/")
    ∷ []

module _ {P : Platform} (W : TreeWriter P) where
  unfoldable pub put_all : List (Text × Text) → P.Ptree → P.Ptree
  put_all [] pt = pt
  put_all ((key, value) ∷ fields) pt = put_all fields (W.put pt key value)

  unfoldable pub add_all : List (Text × Text) → P.Ptree → P.Ptree
  add_all [] pt = pt
  add_all ((key, value) ∷ fields) pt = add_all fields (W.add pt key value)

  abbrev pub sample_fields : List (Text × Text)
  sample_fields =
      (codes "username", codes "mister_awesome")
      ∷ (codes "apikey", codes "xxxyyyzzz-long-key")
      ∷ (codes "region", codes "DFW")
      ∷ (codes "container", codes "cloud-files-container")
      ∷ (codes "snet", W.print_bool false)
      ∷ (codes "local_dir", codes "/var/www/mysite/images/")
      ∷ (codes "remote_dir", codes "/images/")
      ∷ []

  -- The tree of `writeEntry`.
  unfoldable pub sample_tree : P.Ptree
  unfolding put_all add_all
  sample_tree =
      let pt = put_all sample_fields P.empty_tree in
      let with_files =
        W.add_child pt (codes "files-to-ignore") (add_all sample_files P.empty_tree) in
      W.add_child with_files (codes "directories-to-ignore")
        (add_all sample_directories P.empty_tree)

  -- The text for the extension of a name. Without a known one that is an exception.
  unfoldable pub text_for : Text → P.Ptree → Option Text
  text_for filename pt =
      if P.iends_with filename (codes ".ini")
      then W.write_ini pt
      else if P.iends_with filename (codes ".json")
      then W.write_json pt
      else if P.iends_with filename (codes ".info")
      then W.write_info pt
      else if P.iends_with filename (codes ".xml")
      then W.write_xml pt
      else none

  -- `writeEntry`; `true` says that it throws nothing. The stream makes the file, or empties it, first;
  -- where it `can_open` no file, the writers throw.
  unfoldable pub write_entry : (Text → Bool) → Text → Disk → Bool × Disk
  unfolding sample_tree text_for assign
  write_entry can_open filename disk =
      if can_open filename
      then elim (text_for filename sample_tree) [
        | none ↦ (false, assign text_eq disk filename [])
        | some text ↦ (true, assign text_eq disk filename text)
      ]
      else (false, disk)

  -- `write_sample_config`
  unfoldable pub write_sample_config : (Text → Bool) → Text → Disk → Bool × Disk
  unfolding write_entry find
  write_sample_config can_open filename disk = elim (find text_eq disk filename) [
    | none ↦ write_entry can_open filename disk
    | some _ ↦ (false, disk)
  ]
