-- ===== src/Tests/Cfsyncs.antt =====
-- cfsync from a place in the cloud to the disk.
use cdnalizerd.Base.{ℕ, ◌+◌, ◌≡◌, refl, false, [], ◌∷◌, ◌++◌, none, some, negsuc}
use cdnalizerd.Base.Text.{codes, text_eq}
use cdnalizerd.Url.Parser.{parse}
use cdnalizerd.Account.Cache.{LoginServer}
use cdnalizerd.Listing.{Server}
use cdnalizerd.Cfsync.{Options, parsed_options, accepted, setup_commandline_options, Terminal, main}
use cdnalizerd.Cfsync.Laws.{in_cloud, ListsOrHelp, main-ListsOrHelp}

abbrev options : Options
options = record {
  source = codes "cf://a";
  dest = codes "/d";
  username = codes "u";
  apikey = codes "k";
  region = codes "r";
  snet = false;
  log_verbosity = negsuc 8;
}

-- A verbosity of -9 is accepted.
options_accepted : setup_commandline_options (parsed_options options false) ≡ accepted options
unfolding setup_commandline_options
options_accepted = refl

abbrev pub login_server : LoginServer
login_server = record {
  World = ℕ;
  credentials = λ name key. name;
  to_string = λ n. [];
  beast_version = [];
  exchange = λ request w. (some request.body, w + 1);
  read_reply = λ body. some (record {
    id = body;
    service_catalog =
        (
          codes "cloudFiles",
          record {
            region = codes "r";
            public_url = codes "https://h/v1";
            internal_url = codes "https://i/v1";
          }
              ∷ [],
        )
        ∷ [];
  });
}

-- The account has no container.
abbrev pub storage_server : Server
storage_server = record {
  World = ℕ;
  exchange = λ request w. (some (record { status = 204; body = [] }), w + 1);
  json_to_lines = λ body. none;
}

abbrev terminal : Terminal
terminal = record {
  directory = λ root. some ((root ++ codes "/f") ∷ []);
  sort = λ paths. paths;
  print_path = λ path. path;
  print_json = λ text. text;
  help = codes "Syncs files" ∷ [];
}

main-ListsOrHelp_example :
    ListsOrHelp terminal false
      (codes "a")
      (main terminal ℕ login_server storage_server 1 false (parsed_options options false) 0 0)
main-ListsOrHelp_example =
    main-ListsOrHelp terminal login_server storage_server (λ body. refl) ℕ 0 false false
      (in_cloud (codes "a")) options 0 0 tt refl

-- What that run prints.
main_run :
    main terminal ℕ login_server storage_server 1 false (parsed_options options false) 0 0
    ≡ some (record {
      lines = codes "Remote: " ∷ [] ∷ codes "Local: " ∷ codes "a/f" ∷ [];
      thrown = false;
    })
unfolding main text_eq parse
main_run = refl
