-- ===== src/Tests/Configs.antt =====
-- Configurations at concrete data. An expression is a text, found in a name that begins with it.
use mathlib.Core.List.{Perm}
use cdnalizerd.Base.{
  ◌≡◌, ◌⊎◌, refl, Bool, true, false, ◌||◌, ◌&&◌, List, [], ◌∷◌, Option, none, some, if◌then◌else◌,
}
use cdnalizerd.Base.Text.{Text, codes, text_eq, text_lt, is_prefix}
use cdnalizerd.Config.{ConfigEntry, validate}
use cdnalizerd.Config.Entries.{Config, ok, throws, invalid_entry, add_entry}
use cdnalizerd.Config.Entries.Laws.{IsValid, add_entry-IsValid}
use cdnalizerd.Config.Reader.{Platform, IsLawful, read_config}
use cdnalizerd.Config.Reader.Laws.{contributed_all, read_config-directory}

abbrev entry : Text → Text → ConfigEntry Text
entry local_dir remote_dir = record {
  username = codes "u";
  apikey = codes "k";
  region = codes "DFW";
  container = codes "c";
  snet = false;
  move = false;
  local_dir = local_dir;
  remote_dir = remote_dir;
  files_to_ignore = codes "tmp" ∷ [];
  directories_to_ignore = codes "/conf/" ∷ [];
}

abbrev site_a : ConfigEntry Text
site_a = entry (codes "/a") (codes "img")

abbrev site_c : ConfigEntry Text
site_c = entry (codes "/c") (codes "css")

abbrev two_sites : Config Text
two_sites = record { entries = site_a ∷ site_c ∷ [] }

two_sites-IsValid : IsValid two_sites
unfolding validate text_lt
two_sites-IsValid = record { sorted = ((refl, tt), (tt, tt)); valid = (refl, (refl, tt)) }

search : Text → Text → Bool
search name regex = is_prefix regex name

abbrev site_b : ConfigEntry Text
site_b = entry (codes "/b") (codes "js")

add_entry_run : add_entry two_sites site_b ≡ ok (record { entries = site_a ∷ site_b ∷ site_c ∷ [] })
unfolding add_entry validate text_lt
add_entry_run = refl

add_entry-IsValid_example :
    ((validate site_b ≡ false) × (add_entry two_sites site_b ≡ throws invalid_entry))
    ⊎ ((d : Config Text) × (validate site_b ≡ true)
        × (add_entry two_sites site_b ≡ ok d)
        × Perm d.entries (site_b ∷ two_sites.entries)
        × IsValid d)
add_entry-IsValid_example = add_entry-IsValid two_sites site_b two_sites-IsValid

-- A tree is a list of keys with values.
abbrev value : List (Text × Text) → Text → Option Text
value [] key = none
value ((k, v) ∷ pt) key = if text_eq k key then some v else value pt key

abbrev good_tree : List (Text × Text)
good_tree =
    (codes "username", codes "u")
    ∷ (codes "apikey", codes "k")
    ∷ (codes "region", codes "DFW")
    ∷ (codes "container", codes "c")
    ∷ (codes "local_dir", codes "/a")
    ∷ (codes "remote_dir", codes "img")
    ∷ []

abbrev pub toy : Platform
toy = record {
  Regex = Text;
  Ptree = List (Text × Text);
  regex = λ t. some t;
  empty_tree = [];
  get = value;
  get_bool = λ pt key default. default;
  get_children = λ pt key. none;
  read_ini = λ f. if text_eq f (codes "a.ini") then some good_tree else none;
  read_json = λ f. none;
  read_xml = λ f. none;
  read_info = λ f. none;
  iends_with =
      λ f e. text_eq e (codes ".ini") && (text_eq f (codes "a.ini") || text_eq f (codes "b.ini"));
  is_directory = λ f. some (text_eq f (codes "/etc/cdnalizerd"));
  directory = λ f. some (codes "b.ini" ∷ codes "a.ini" ∷ []);
}

toy-IsLawful : IsLawful toy
toy-IsLawful = record { get-empty_tree = λ key. refl }

read_config-directory_example :
    (c : Config Text) × (read_config toy false (codes "/etc/cdnalizerd") ≡ some c)
    × IsValid c
    × Perm c.entries (contributed_all toy false (codes "b.ini" ∷ codes "a.ini" ∷ []))
unfolding text_eq
read_config-directory_example =
    read_config-directory toy false (codes "/etc/cdnalizerd") (codes "b.ini" ∷ codes "a.ini" ∷ [])
      refl refl
