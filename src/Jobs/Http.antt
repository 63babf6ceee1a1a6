-- ===== src/Jobs/Http.antt =====
-- The requests of src/jobs, with `setDefaultHeaders` of src/https.hpp. Exceptions are told apart as far
-- as the handlers of src/jobs/upload.cpp tell them apart.
use cdnalizerd.Base.{ℕ, Bool, List, [], ◌∷◌, ◌++◌, Option, if◌then◌else◌}
use cdnalizerd.Base.Text.{Text, codes, text_eq}

pub data Exception : Type 0 where
  system_error boost_exception std_exception other_exception : Exception

pub data Try (A : Type 0) : Type 0 where
  ok : A → Try A
  throw : Exception → Try A

pub data Verb : Type 0 where
  head put delete : Verb

pub record Request : Type 0 where
  pub verb : Verb
  pub target : Text
  pub fields : List (Text × Text)

pub record Response : Type 0 where
  pub status : ℕ
  pub etag : Text

-- The file system, the digest and the server, which are not of the repository. `mapped` opens a
-- mapped file, `open_body` the body of a request and gives its size; `exchange` writes a request and
-- reads the response.
pub record Outside : Type 1 where
  pub World : Type 0
  pub is_regular_file : Text → World → Try Bool
  pub mapped : Text → World → Try Text
  pub md5 : Text → Text
  pub file_size : Text → World → Try ℕ
  pub open_body : Text → World → Option ℕ
  pub exchange : Request → World → Try Response × World
  pub user_agent : Text
  pub to_string : ℕ → Text

-- A connection with the requests that were sent over it.
pub record Connection (World : Type 0) : Type 0 where
  pub sent : List Request
  pub world : World

-- `set` of a header field: the field is replaced or added.
unfoldable pub set_field : List (Text × Text) → Text → Text → List (Text × Text)
set_field [] name value = (name, value) ∷ []
set_field ((n, v) ∷ fields) name value =
    if text_eq n name then (n, value) ∷ fields else (n, v) ∷ set_field fields name value

-- `setDefaultHeaders`
unfoldable pub set_default_headers : Text → List (Text × Text) → Text → List (Text × Text)
unfolding set_field
set_default_headers agent fields token =
    let f1 = set_field fields (codes "User-Agent") agent in
    let f2 = set_field f1 (codes "Content-Type") (codes "application/json") in
    let f3 = set_field f2 (codes "Accept") (codes "application/json") in
    set_field f3 (codes "X-Auth-Token") token

-- The fields that the requests without a body set.
unfoldable pub set_bare_headers : Text → Text → Text → List (Text × Text)
unfolding set_field
set_bare_headers agent host token =
    let f1 = set_field [] (codes "Host") host in
    let f2 = set_field f1 (codes "User-Agent") agent in
    let f3 = set_field f2 (codes "Accept") (codes "application/json") in
    set_field f3 (codes "X-Auth-Token") token

-- `async_write` and the read after it.
unfoldable pub send :
    (o : Outside) → Request → Connection o.World → Try Response × Connection o.World
send o request c =
    let (reply, world) = o.exchange request c.world in
    (reply, record { sent = c.sent ++ request ∷ []; world = world })
