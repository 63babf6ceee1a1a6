-- ===== src/Tests/Daemons.antt =====
-- `cdnalizerd --list` with a directory of configuration files.
use cdnalizerd.Base.{◌≡◌, refl, true, false, [], ◌∷◌, none, some, pos}
use cdnalizerd.Base.Text.{Text, codes}
use cdnalizerd.Config.Writer.{TreeWriter}
use cdnalizerd.Daemon.{Arguments, Outcome, daemon}
use cdnalizerd.Daemon.Laws.{IsSilent, daemon_list-IsSilent}
use cdnalizerd.Tests.Cfsyncs.{login_server, storage_server}
use cdnalizerd.Tests.Configs.{toy}

abbrev args : Arguments
args = record {
  config = codes "/etc/cdnalizerd";
  create_sample = false;
  go = false;
  list = true;
  list_detailed = false;
  log_verbosity = pos 0;
}

abbrev writer : TreeWriter toy
writer = record {
  put = λ pt key v. (key, v) ∷ pt;
  add = λ pt key v. pt;
  add_child = λ pt key child. pt;
  print_bool = λ b. [];
  write_ini = λ pt. none;
  write_json = λ pt. none;
  write_info = λ pt. none;
  write_xml = λ pt. none;
}

daemon_list-IsSilent_example :
    (o : Outcome Text) × (daemon toy login_server storage_server writer
        (λ path. true)
        []
        1
        (λ n. n)
        0
        (true ∷ false ∷ true ∷ false ∷ true ∷ false ∷ [])
        false
        args
      ≡ some o)
    × IsSilent o
daemon_list-IsSilent_example =
    daemon_list-IsSilent toy login_server storage_server (λ body. refl) writer (λ path. true) [] 0
      (λ n. n) 0 (true ∷ false ∷ true ∷ false ∷ true ∷ false ∷ []) false args refl
