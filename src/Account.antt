-- ===== src/Account.antt =====
-- `Rackspace` of src/Rackspace.hpp: the storage URLs of an account. `Login` is what the constructor
-- reads of the JSON reply.
pub mod Cache
pub mod LoginAll
use cdnalizerd.Base.{Bool, List, [], ◌∷◌, Option, none, some, if◌then◌else◌}
use cdnalizerd.Base.Text.{Text, codes, text_eq}
use cdnalizerd.Base.Maps.{find, assign}
use cdnalizerd.Url.Parser.{Url, parsed, parse_error, parse}

pub record Endpoint : Type 0 where
  pub region : Text
  pub public_url : Text
  pub internal_url : Text

pub record Login : Type 0 where
  pub id : Text
  pub service_catalog : List (Text × List Endpoint)

pub record Rackspace : Type 0 where
  pub token : Text
  pub public_urls : List (Text × Url)
  pub private_urls : List (Text × Url)

-- The loop over the services, up to the first that is named cloudFiles.
unfoldable cloud_files : List (Text × List Endpoint) → Option (List Endpoint)
cloud_files [] = none
cloud_files ((name, endpoints) ∷ services) =
    if text_eq name (codes "cloudFiles") then some endpoints else cloud_files services

-- One round of the loop over the endpoints. `none` is the exception of the parser.
unfoldable add_endpoint : Rackspace → Endpoint → Option Rackspace
unfolding assign
add_endpoint rs ep = elim (parse ep.public_url) [
  | parse_error _ ↦ none
  | parsed public ↦ elim (parse ep.internal_url) [
    | parse_error _ ↦ none
    | parsed internal ↦ some (record rs {
      public_urls = assign text_eq rs.public_urls ep.region public;
      private_urls = assign text_eq rs.private_urls ep.region internal;
    })
  ]
]

unfoldable add_endpoints : Rackspace → List Endpoint → Option Rackspace
unfolding add_endpoint
add_endpoints rs [] = some rs
add_endpoints rs (ep ∷ eps) = elim (add_endpoint rs ep) [
  | none ↦ none
  | some r ↦ add_endpoints r eps
]

-- The constructor. `none` is the abort of `LOG_S(FATAL)` or an exception.
unfoldable pub new_rackspace : Login → Option Rackspace
unfolding cloud_files add_endpoints
new_rackspace login = elim (cloud_files login.service_catalog) [
  | none ↦ none
  | some endpoints ↦
      add_endpoints (record { token = login.id; public_urls = []; private_urls = [] }) endpoints
]

-- `getURL`. `none` is the exception of `at`.
unfoldable pub get_url : Rackspace → Text → Bool → Option Url
unfolding find
get_url rs region snet =
    if snet then find text_eq rs.private_urls region else find text_eq rs.public_urls region
