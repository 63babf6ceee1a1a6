-- ===== src/Tests/Logins.antt =====
-- A login of one account, with a server that knows it.
use cdnalizerd.Base.{ℕ, ◌+◌, arith, ◌≡◌, refl, Bool, true, false, List, [], ◌∷◌, some, Each}
use cdnalizerd.Base.Text.{codes, text_eq}
use cdnalizerd.Account.{Rackspace, new_rackspace}
use cdnalizerd.Account.Cache.{LoginServer, AccountCache, read_account, login_request}
use cdnalizerd.Account.LoginAll.{login}
use cdnalizerd.Account.LoginAll.Laws.{HasAccount}
use cdnalizerd.Account.LoginAll.Ends.{login-HasAccount, login-ends}
use cdnalizerd.Tests.Watches.{entry}

-- The world counts the requests.
abbrev server : LoginServer
server = record {
  World = ℕ;
  credentials = λ name key. name;
  to_string = λ n. [];
  beast_version = [];
  exchange = λ request w. (some request.body, w + 1);
  read_reply = λ body. some (record { id = body; service_catalog = (codes "cloudFiles", []) ∷ [] });
}

abbrev pub account : Rackspace
account = record { token = entry.username; public_urls = []; private_urls = [] }

abbrev turns : List Bool
turns = true ∷ true ∷ false ∷ false ∷ []

login-HasAccount_example : Each (HasAccount ((entry.username, account) ∷ [])) (entry ∷ [])
unfolding login new_rackspace read_account text_eq
login-HasAccount_example =
    login-HasAccount server (entry ∷ []) [] ((entry.username, account) ∷ []) 0 turns refl

login-ends_example :
    (cache : AccountCache) × (login server (entry ∷ []) [] 0 turns ≡ some cache)
    × Each (HasAccount cache) (entry ∷ [])
unfolding read_account new_rackspace text_eq login_request
login-ends_example =
    login-ends server (entry ∷ []) [] 0 turns (λ w. (account, refl), tt) (omega arith) (omega arith)
