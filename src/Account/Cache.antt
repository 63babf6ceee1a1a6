-- ===== src/Account/Cache.antt =====
-- src/AccountCache.cpp: the login of one account, and of all. The server, and the JSON library that
-- writes the request and reads the reply, are parameters.
use cdnalizerd.Base.{List, [], ◌∷◌, Option, none, some, ℕ, length}
use cdnalizerd.Base.Text.{Text, codes, text_eq}
use cdnalizerd.Base.Maps.{find}
use cdnalizerd.Config.{ConfigEntry}
use cdnalizerd.Account.{Login, Rackspace, new_rackspace}

-- The fields of the request, in the order in which they are set.
pub record LoginRequest : Type 0 where
  pub target : Text
  pub fields : List (Text × Text)
  pub body : Text

-- `credentials` is the JSON text of a name and a key, `read_reply` what the constructor of `Rackspace`
-- reads of a reply. `exchange` is `none` when the reply cannot be read, and for the abort after a
-- request that cannot be written.
pub record LoginServer : Type 1 where
  pub World : Type 0
  pub credentials : Text → Text → Text
  pub to_string : ℕ → Text
  pub beast_version : Text
  pub exchange : LoginRequest → World → Option Text × World
  pub read_reply : Text → Option Login

-- `AccountCache`
abbrev pub AccountCache : Type 0
AccountCache = List (Text × Rackspace)

-- `emplace` leaves an account that is there as it is.
unfoldable pub emplace_account : AccountCache → Text → Rackspace → AccountCache
unfolding find
emplace_account cache username rs = elim (find text_eq cache username) [
  | none ↦ (username, rs) ∷ cache
  | some _ ↦ cache
]

-- The cache after a reply that is an account, `none` after one that is not.
unfoldable pub with_account : AccountCache → Text → Option Rackspace → Option AccountCache
unfolding emplace_account
with_account cache username none = none
with_account cache username (some rs) = some (emplace_account cache username rs)

abbrev pub login_host : Text
login_host = codes "identity.api.rackspacecloud.com"

module _ (S : LoginServer) where
  unfoldable pub login_request : {Regex : Type 0} → Text → ConfigEntry Regex → LoginRequest
  login_request host entry =
      let body = S.credentials entry.username entry.apikey in
      record {
        target = codes "/v2.0/tokens";
        fields =
            (codes "Host", host)
            ∷ (codes "User-Agent", S.beast_version)
            ∷ (codes "Content-Type", codes "application/json")
            ∷ (codes "Accept", codes "application/json")
            ∷ (codes "Content-Length", S.to_string (length body))
            ∷ [];
        body = body;
      }

  -- `Rackspace rs(json::parse(res.body()))`
  unfoldable pub read_account : Option Text → Option Rackspace
  unfolding new_rackspace
  read_account none = none
  read_account (some body) = elim (S.read_reply body) [
    | none ↦ none
    | some login ↦ new_rackspace login
  ]

  -- The first `fillSingleAccountCache`, over a connection. `none` is an exception or an abort.
  unfoldable pub fill_single_account_cache :
      {Regex : Type 0} → ConfigEntry Regex → AccountCache → S.World → Option AccountCache × S.World
  unfolding login_request read_account with_account
  fill_single_account_cache entry cache w =
      let (reply, w') = S.exchange (login_request login_host entry) w in
      (with_account cache entry.username (read_account reply), w')
