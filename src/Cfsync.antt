-- ===== src/Cfsync.antt =====
-- src/cfsync: the options, the kind of job, and the lists that cfsync prints. Boost's parser of the
-- command line, the file system, the servers and the printers of strings are parameters.
pub mod Laws
use cdnalizerd.Base.{
  ℕ, Bool, true, false, List, [], ◌∷◌, ◌++◌, Option, none, some, ltb, if◌then◌else◌, ◌||◌, drop,
  flat, map, ℤ, pos, negsuc,
}
use cdnalizerd.Base.Text.{Text, codes, text_eq, is_empty, is_prefix}
use cdnalizerd.Base.Maps.{find}
use cdnalizerd.Config.{ConfigEntry}
use cdnalizerd.Account.{get_url}
use cdnalizerd.Account.Cache.{LoginServer, fill_single_account_cache}
use cdnalizerd.Listing.{Server, Pages, list_container}

-- `Options` of src/cfsync/commandLineOptions.hpp
pub record Options : Type 0 where
  pub source : Text
  pub dest : Text
  pub username : Text
  pub apikey : Text
  pub region : Text
  pub snet : Bool
  pub log_verbosity : ℤ

-- What boost makes of the arguments: an exception with its text, or the struct, filled in, and whether
-- `--help` was among them.
pub data Parsed : Type 0 where
  parse_failed : Text → Parsed
  parsed_options : Options → Bool → Parsed

-- `setupCommandlineOptions` gives `true`; or `false` after an error message, or after the help; or
-- aborts by `LOG_S(FATAL)`.
pub data Setup : Type 0 where
  accepted : Options → Setup
  refused : Text → Setup
  helped : Setup
  aborted : Setup

-- `(v < -9) || (v > 9)`
unfoldable pub is_bad_verbosity : ℤ → Bool
is_bad_verbosity (pos n) = ltb 9 n
is_bad_verbosity (negsuc n) = ltb 8 n

unfoldable pub setup_commandline_options : Parsed → Setup
unfolding is_bad_verbosity
setup_commandline_options (parse_failed what) =
    refused (codes "Error parsing options: " ++ what ++ codes "\n")
setup_commandline_options (parsed_options o help) =
    if is_empty o.source
    then refused (codes "No source file/url provided")
    else if is_empty o.dest
    then refused (codes "No destination file/url provided")
    else if help
    then helped
    else if is_bad_verbosity o.log_verbosity
    then aborted
    else accepted o

-- `JobType`
pub data JobType : Type 0 where
  upload download server_copy local_copy : JobType

abbrev pub is_remote : Text → Bool
is_remote = is_prefix (codes "cf://")

unfoldable pub job_type_of : Options → JobType
unfolding is_prefix
job_type_of o =
    if is_remote o.dest
    then (if is_remote o.source then server_copy else upload)
    else (if is_remote o.source then download else local_copy)

-- Take the `cf://` off.
unfoldable pub erase_scheme : Text → Text
unfolding is_prefix
erase_scheme path = if is_remote path then drop 5 path else path

-- The entry that `main` fills in. The container and the ignored files keep their empty values, the
-- member `move` is left uninitialised: its value is `garbage`.
unfoldable pub entry_of_options : {Regex : Type 0} → Bool → Options → ConfigEntry Regex
unfolding erase_scheme
entry_of_options garbage o = record {
  username = o.username;
  apikey = o.apikey;
  region = o.region;
  container = [];
  snet = o.snet;
  move = garbage;
  local_dir = erase_scheme o.source;
  remote_dir = erase_scheme o.dest;
  files_to_ignore = [];
  directories_to_ignore = [];
}

-- The directory iterator, `std::sort` on paths, how a path and a JSON string are printed, and the lines
-- that boost prints for the description of the options.
pub record Terminal : Type 0 where
  pub directory : Text → Option (List Text)
  pub sort : List Text → List Text
  pub print_path : Text → Text
  pub print_json : Text → Text
  pub help : List Text

-- What was printed, and whether an exception or a failed assertion came after it.
pub record Printed : Type 0 where
  pub lines : List Text
  pub thrown : Bool

abbrev pub failed : Printed
failed = record { lines = []; thrown = true }

module _ (T : Terminal) where
  -- `listFiles`
  unfoldable pub list_files : Text → Option (List Text)
  list_files root = elim (T.directory root) [ none ↦ none | some files ↦ some (T.sort files) ]

  -- The lists are printed one after the other. The list of remote files is run up to its first entry
  -- before its title is printed.
  unfoldable pub print_lists : Pages → Option (List Text) → Printed
  print_lists r files =
      let names = flat r.pages in
      let remote = codes "Remote: " ∷ map T.print_json names in
      if r.thrown
      then elim names [ [] ↦ failed | _ ∷ _ ↦ record { lines = remote; thrown = true } ]
      else elim files [
        | none ↦ record { lines = remote ++ [] ∷ codes "Local: " ∷ []; thrown = true }
        | some paths ↦ record {
          lines = remote ++ [] ∷ codes "Local: " ∷ map T.print_path paths;
          thrown = false;
        }
      ]

  -- `cfsync`, which asks nothing of the kind of job. The list of remote files takes fuel, and `none`
  -- means that it ran out.
  unfoldable pub cfsync :
      {Regex : Type 0} (L : LoginServer) (S : Server)
      → ℕ
      → JobType
      → ConfigEntry Regex
      → L.World
      → S.World
      → Option Printed
  unfolding fill_single_account_cache find get_url list_files print_lists list_container
  cfsync L S fuel job entry l w = elim (fill_single_account_cache L entry [] l).0 [
    | none ↦ some failed
    | some accounts ↦ elim (find text_eq accounts entry.username) [
      | none ↦ some failed
      | some rs ↦ elim (get_url rs entry.region entry.snet) [
        | none ↦ some failed
        | some _ ↦ elim (list_container S fuel rs entry [] w) [
          | none ↦ none
          | some r ↦ some (print_lists r (list_files entry.local_dir))
        ]
      ]
    ]
  ]

  -- `main`, from the parsed options on: what is printed on the standard output.
  unfoldable pub main :
      (Regex : Type 0) (L : LoginServer) (S : Server)
      → ℕ
      → Bool
      → Parsed
      → L.World
      → S.World
      → Option Printed
  unfolding setup_commandline_options job_type_of entry_of_options cfsync
  main Regex L S fuel garbage parsed l w = elim (setup_commandline_options parsed) [
    | accepted o ↦ cfsync {Regex = Regex} L S fuel (job_type_of o) (entry_of_options garbage o) l w
    | refused _ ↦ some (record { lines = []; thrown = false })
    | helped ↦ some (record { lines = T.help; thrown = false })
    | aborted ↦ some failed
  ]
