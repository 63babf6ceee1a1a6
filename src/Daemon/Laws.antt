-- ===== src/Daemon/Laws.antt =====
-- What `cdnalizerd --list` finds and prints.
use cdnalizerd.Base.{
  ℕ, suc, ◌≡◌, ◌≢◌, inl, inr, pos, negsuc, refl, Bool, true, List, [], ◌∷◌, none, some,
  if◌then◌else◌, Each, Option-cases, Bool-cases,
}
use cdnalizerd.Base.Text.{Text}
use cdnalizerd.Config.{ConfigEntry}
use cdnalizerd.Config.Entries.{Config}
use cdnalizerd.Config.Reader.{Platform, read_config}
use cdnalizerd.Config.Writer.{TreeWriter, Disk, write_sample_config}
use cdnalizerd.Account.{get_url}
use cdnalizerd.Account.Cache.{LoginServer, AccountCache}
use cdnalizerd.Account.LoginAll.{login}
use cdnalizerd.Account.LoginAll.Laws.{HasAccount}
use cdnalizerd.Account.LoginAll.Ends.{login-HasAccount}
use cdnalizerd.Cfsync.{is_bad_verbosity}
use cdnalizerd.Listing.{Server}
use cdnalizerd.Listing.Requests.{list_container-no_entries}
use cdnalizerd.Daemon.{
  Arguments, ended, excepted, no_account, Listed, prints, Outcome, returned, listed, terminated,
  no_login, print_names, list_each, list_run, daemon,
}

ended_not_missing : ended ≢ no_account
ended_not_missing h = cc

excepted_not_missing : excepted ≢ no_account
excepted_not_missing h = cc

-- A list without a line, for which all accounts were found.
abbrev pub IsBlank : Listed → Type 0
IsBlank r = (r.lines ≡ []) × (r.ending ≢ no_account)

-- If it was a list, it has no line, and all accounts were found.
abbrev pub IsSilent : {Regex : Type 0} → Outcome Regex → Type 0
IsSilent (listed r) = IsBlank r
IsSilent _ = Unit

module _ (S : Server) (strict : (body : Text) → S.json_to_lines body ≡ none) where
  list_each-IsBlank :
      {Regex : Type 0} (fuel : ℕ) (worlds : ℕ → S.World) (accounts : AccountCache) (n : ℕ)
      (entries : List (ConfigEntry Regex))
      → Each (HasAccount accounts) entries
      → (r : Listed) × (list_each S (λ entry. []) print_names (suc fuel) worlds accounts n entries
          ≡ some r)
        × IsBlank r
  unfolding list_each print_names
  list_each-IsBlank fuel worlds accounts n [] h =
      (record { lines = []; ending = ended }, refl, (refl, ended_not_missing))
  list_each-IsBlank fuel worlds accounts n (entry ∷ entries) ((rs, found), h) =
      elim (Option-cases (get_url rs entry.region entry.snet)) [
        | inl g ↦ (
          record { lines = []; ending = excepted },
          rw (found, g, list_each) refl,
          (refl, excepted_not_missing),
        )
        | inr (base, g) ↦
            let (thrown, e, _) =
              list_container-no_entries S strict fuel rs entry base (worlds n) g in
            let (rest, k, blank) = list_each-IsBlank fuel worlds accounts (suc n) entries h in
            elim (Bool-cases thrown) [
              | inl t ↦ (
                record { lines = []; ending = excepted },
                rw (found, g, e, t, list_each) refl,
                (refl, excepted_not_missing),
              )
              | inr t ↦ (prints [] rest, rw (found, g, e, t, k, list_each) refl, blank)
            ]
      ]

module _ (P : Platform) (L : LoginServer) (S : Server)
    (strict : (body : Text) → S.json_to_lines body ≡ none) where
  list_run-IsSilent :
      (fuel : ℕ) (worlds : ℕ → S.World) (l : L.World) (turns : List Bool) (config : Config P.Regex)
      → (o : Outcome P.Regex) × (list_run P L S
            (λ entry. [])
            print_names
            (suc fuel)
            worlds
            l
            turns
            config
          ≡ some o)
        × IsSilent o
  unfolding list_run
  list_run-IsSilent fuel worlds l turns config =
      elim (Option-cases (login L config.entries [] l turns)) [
        | inl e ↦ (no_login, rw (e, list_run) refl, tt)
        | inr (accounts, e) ↦
            let found = login-HasAccount L config.entries [] accounts l turns e in
            let (r, k, blank) =
              list_each-IsBlank S strict fuel worlds accounts 0 config.entries found in
            (listed r, rw (e, k, list_run) refl, blank)
      ]

  -- `cdnalizerd --list`, when a JSON string cannot be made into a vector, as the JSON library
  -- documents. Whatever the configuration, the order of the logins, the accounts and the replies of the
  -- servers: it ends, for any fuel but zero; if it comes to the list, `accounts.at` finds the account
  -- of each entry that it comes to, and not one line is printed.
  pub daemon_list-IsSilent :
      (W : TreeWriter P) (can_open : Text → Bool) (disk : Disk) (fuel : ℕ) (worlds : ℕ → S.World)
      (l : L.World) (turns : List Bool) (garbage : Bool) (args : Arguments)
      → args.list ≡ true
      → (o : Outcome P.Regex) × (daemon P L S W can_open disk (suc fuel) worlds l turns garbage args
          ≡ some o)
        × IsSilent o
  unfolding daemon
  daemon_list-IsSilent W can_open disk fuel worlds l turns garbage args h =
      elim (Bool-cases (is_bad_verbosity args.log_verbosity)) [
        | inl a ↦ (terminated, rw (a) refl, tt)
        | inr a ↦ elim (Bool-cases args.create_sample) [
          | inl b ↦ (
            returned
                (if (write_sample_config W can_open args.config disk).0 then pos 0 else negsuc 0)
                (write_sample_config W can_open args.config disk).1,
            rw (a, b) refl,
            tt,
          )
          | inr b ↦ elim (Option-cases (read_config P garbage args.config)) [
            | inl c ↦ (terminated, rw (a, b, h, c) refl, tt)
            | inr (config, c) ↦
                let (o, k, silent) = list_run-IsSilent fuel worlds l turns config in
                (o, rw (a, b, h, c, h) k, silent)
          ]
        ]
      ]
