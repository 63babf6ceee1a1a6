-- ===== src/Daemon.antt =====
-- src/main.cpp: the choice among the options, and the two lists. Boost's parser of the command line, and
-- the state of the server before each list, are parameters.
pub mod Laws
use cdnalizerd.Base.{
  ℕ, suc, Bool, true, false, List, [], ◌∷◌, ◌++◌, Option, none, some, if◌then◌else◌, ◌||◌, not,
  flat, ℤ, pos, negsuc,
}
use cdnalizerd.Base.Text.{Text, codes, text_eq}
use cdnalizerd.Base.Maps.{find}
use cdnalizerd.Config.{ConfigEntry}
use cdnalizerd.Config.Entries.{Config}
use cdnalizerd.Config.Reader.{Platform, read_config}
use cdnalizerd.Config.Writer.{TreeWriter, Disk, write_sample_config}
use cdnalizerd.Account.{get_url}
use cdnalizerd.Account.Cache.{LoginServer, AccountCache}
use cdnalizerd.Account.LoginAll.{login}
use cdnalizerd.Listing.{Server, Pages, list_container}
use cdnalizerd.Cfsync.{is_bad_verbosity}

-- What `variables_map` holds, with the defaults filled in.
pub record Arguments : Type 0 where
  pub config : Text
  pub create_sample : Bool
  pub go : Bool
  pub list : Bool
  pub list_detailed : Bool
  pub log_verbosity : ℤ

-- How a list ends: after the last entry, by an exception of the server or of the JSON library, or by
-- the exception of `accounts.at`.
pub data Ending : Type 0 where
  ended excepted no_account : Ending

pub record Listed : Type 0 where
  pub lines : List Text
  pub ending : Ending

-- `main` returns the code, and leaves these files; or returns 0 after a list, however it ended; or goes on to watch; or is
-- ended by `LOG_S(FATAL)` or an exception that nothing catches; or by `login`, which gave no accounts.
pub data Outcome (Regex : Type 0) : Type 0 where
  returned : ℤ → Disk → Outcome Regex
  listed : Listed → Outcome Regex
  watches : Config Regex → Outcome Regex
  terminated : Outcome Regex
  no_login : Outcome Regex

-- What is printed for the entries that the list of a container gives, and whether printing throws: an
-- entry of the detailed list is a JSON string, and `at` throws for that.
unfoldable pub print_names : Pages → List Text × Bool
print_names r = (flat r.pages, r.thrown)

unfoldable print_details : Pages → List Text × Bool
print_details r = elim (flat r.pages) [ [] ↦ ([], r.thrown) | _ ∷ _ ↦ ([], true) ]

unfoldable detailed_title : {Regex : Type 0} → ConfigEntry Regex → List Text
detailed_title entry =
    codes "========"
    ∷ (codes "Username: " ++ entry.username)
    ∷ (codes "Container: " ++ entry.container)
    ∷ []
    ∷ []

abbrev pub prints : List Text → Listed → Listed
prints lines r = record { lines = lines ++ r.lines; ending = r.ending }

module _ {Regex : Type 0} (S : Server) (title : ConfigEntry Regex → List Text)
    (print : Pages → List Text × Bool) where
  -- The loop over the entries. `worlds` gives the state of the server before the list of an entry, by
  -- position. The list of a container takes fuel, and `none` means that it ran out.
  unfoldable pub list_each :
      ℕ → (ℕ → S.World) → AccountCache → ℕ → List (ConfigEntry Regex) → Option Listed
  unfolding find get_url list_container
  list_each fuel worlds accounts n [] = some (record { lines = []; ending = ended })
  list_each fuel worlds accounts n (entry ∷ entries) = elim (find text_eq accounts entry.username) [
    | none ↦ some (record { lines = title entry; ending = no_account })
    | some rs ↦ elim (get_url rs entry.region entry.snet) [
      | none ↦ some (record { lines = title entry; ending = excepted })
      | some _ ↦ elim (list_container S fuel rs entry [] (worlds n)) [
        | none ↦ none
        | some r ↦
            let (lines, throws) = print r in
            elim throws [
              | true ↦ some (record { lines = title entry ++ lines; ending = excepted })
              | false ↦ elim (list_each fuel worlds accounts (suc n) entries) [
                | none ↦ none
                | some rest ↦ some (prints (title entry ++ lines) rest)
              ]
            ]
      ]
    ]
  ]

module _ (P : Platform) (L : LoginServer) (S : Server) where
  -- The coroutines of `--list` and `--list-detailed`: log in, and go over the entries. `turns` is the
  -- schedule of the logins.
  unfoldable pub list_run :
      (ConfigEntry P.Regex → List Text)
      → (Pages → List Text × Bool)
      → ℕ
      → (ℕ → S.World)
      → L.World
      → List Bool
      → Config P.Regex
      → Option (Outcome P.Regex)
  unfolding login list_each
  list_run title print fuel worlds l turns config = elim (login L config.entries [] l turns) [
    | none ↦ some no_login
    | some accounts ↦ elim (list_each S title print fuel worlds accounts 0 config.entries) [
      | none ↦ none
      | some r ↦ some (listed r)
    ]
  ]

  -- `main`, from the parsed options on. `garbage` is the member that the reader leaves uninitialised.
  unfoldable pub daemon :
      TreeWriter P
      → (Text → Bool)
      → Disk
      → ℕ
      → (ℕ → S.World)
      → L.World
      → List Bool
      → Bool
      → Arguments
      → Option (Outcome P.Regex)
  unfolding write_sample_config is_bad_verbosity read_config list_run print_names print_details
      detailed_title
  daemon W can_open disk fuel worlds l turns garbage args =
      if is_bad_verbosity args.log_verbosity
      then some terminated
      else if args.create_sample
      then (let (written, disk') = write_sample_config W can_open args.config disk in
          some (returned (if written then pos 0 else negsuc 0) disk'))
      else if args.list || args.list_detailed || args.go
      then elim (read_config P garbage args.config) [
        | none ↦ some terminated
        | some config ↦
            if args.list
            then list_run (λ entry. []) print_names fuel worlds l turns config
            else if args.list_detailed
            then list_run detailed_title print_details fuel worlds l turns config
            else some (watches config)
      ]
      else some (returned (negsuc 0) disk)
