-- ===== src/Listing.antt =====
-- src/processes/list.cpp: the requests for the pages of a container, and the entries that come of
-- them. The server and the conversions of the JSON library are parameters.
pub mod Requests
pub mod Names
pub mod Paging
use cdnalizerd.Base.{
  ℕ, zero, suc, ◌+◌, Bool, true, false, ◌||◌, List, [], ◌∷◌, ◌++◌, Option, none, some, ltb, ◌==◌,
  if◌then◌else◌, length, map,
}
use cdnalizerd.Base.Text.{Text, codes, is_empty}
use cdnalizerd.Config.{ConfigEntry}
use cdnalizerd.Url.Parser.{Url}
use cdnalizerd.Account.{Rackspace, get_url}

-- The template argument `Payload`: `nlohmann::json`, or a vector of strings.
pub data Payload : Type 0 where
  json_payload lines_payload : Payload

pub record PageRequest : Type 0 where
  pub host : Text
  pub target : Text
  pub token : Text

pub record PageReply : Type 0 where
  pub status : ℕ
  pub body : Text

-- `exchange` writes a request and reads the reply; `none` is an exception. `json_to_lines` makes the
-- JSON string of a body into a vector of strings, or throws.
pub record Server : Type 1 where
  pub World : Type 0
  pub exchange : PageRequest → World → Option PageReply × World
  pub json_to_lines : Text → Option (List Text)

-- What a run of the generator does: the requests it sends, the pages it gives out, and whether it
-- ends by an exception or a failed assertion.
pub record Pages : Type 0 where
  pub requests : List PageRequest
  pub pages : List (List Text)
  pub thrown : Bool

abbrev pub newline : ℕ
newline = 10

abbrev cons_first : ℕ → List Text → List Text
cons_first c [] = (c ∷ []) ∷ []
cons_first c (t ∷ ts) = (c ∷ t) ∷ ts

-- `make_split_iterator(body, first_finder("\n"))`
unfoldable pub split_lines : Text → List Text
split_lines [] = [] ∷ []
split_lines (c ∷ t) =
    let rest = split_lines t in if c == newline then [] ∷ rest else cons_first c rest

-- The loop that keeps the entries that are not empty.
unfoldable pub keep_filled : List Text → List Text
keep_filled [] = []
keep_filled (t ∷ ts) = let rest = keep_filled ts in if is_empty t then rest else t ∷ rest

-- `data.back()`, where there is one, becomes the marker.
unfoldable pub next_marker : Text → List Text → Text
next_marker marker [] = marker
next_marker marker (t ∷ ts) = next_marker t ts

-- `path` in the loop.
unfoldable pub page_target : Url → Text → Text → Text → Text → Text
page_target base container marker prefix extra_params =
    base.path
    ++ codes "/"
    ++ container
    ++ codes "?limit=10001"
    ++ (if is_empty marker then [] else codes "&marker=" ++ marker)
    ++ (if is_empty prefix then [] else codes "&prefix=" ++ prefix)
    ++ extra_params

-- What the `switch` does with a reply: give out a page, go on without one, or throw. `count` is one
-- more than the number of entries that were counted, and a page comes with the next marker.
pub data Turn : Type 0 where
  gives : (page : List Text) (marker : Text) (count : ℕ) → Turn
  no_page : Turn
  throws : Turn

module _ (S : Server) where
  -- The case of `ok`: with JSON the lines of the body, with lines the JSON of the body.
  unfoldable pub turn_of_body : Payload → Text → Text → Turn
  unfolding split_lines keep_filled next_marker
  turn_of_body json_payload marker body =
      let page = keep_filled (split_lines body) in
      gives page (next_marker marker page) (1 + length page)
  turn_of_body lines_payload marker body = elim (S.json_to_lines body) [
    | none ↦ throws
    | some page ↦ gives page marker 1
  ]

  -- `not_found` and `conflict` fall through to the exception.
  unfoldable pub turn : Payload → Text → Option PageReply → Turn
  unfolding turn_of_body
  turn payload marker none = throws
  turn payload marker (some r) =
      if r.status == 200
      then turn_of_body payload marker r.body
      else if r.status == 204
      then no_page
      else throws

  -- A page goes out before the assertion `count <= limit` and the test that ends the loop.
  unfoldable pub after_turn : ℕ → Turn → PageRequest → (Text → Option Pages) → Option Pages
  after_turn limit throws request next =
      some (record { requests = request ∷ []; pages = []; thrown = true })
  after_turn limit no_page request next =
      some (record { requests = request ∷ []; pages = []; thrown = ltb limit 1 })
  after_turn limit (gives page marker count) request next =
      if count == limit
      then elim (next marker) [
        | none ↦ none
        | some r ↦
            some (record {
              requests = request ∷ r.requests;
              pages = page ∷ r.pages;
              thrown = r.thrown;
            })
      ]
      else some (record { requests = request ∷ []; pages = page ∷ []; thrown = ltb limit count })

  -- `doGetPages` from the loop on, at some limit. The loop takes fuel, and `none` means that it ran
  -- out.
  unfoldable pub fetch_pages :
      ℕ → Payload → ℕ → Text → Url → Text → Text → Text → Text → S.World → Option Pages
  unfolding page_target turn after_turn
  fetch_pages limit payload zero token base prefix container extra_params marker w = none
  fetch_pages limit payload (suc fuel) token base prefix container extra_params marker w =
      let request : PageRequest = record {
        host = base.host;
        target = page_target base container marker prefix extra_params;
        token = token;
      } in
      let (reply, w') = S.exchange request w in
      after_turn limit (turn payload marker reply) request
        (λ m. fetch_pages limit payload fuel token base prefix container extra_params m w')

  -- `doGetPages`, over a connection that is there.
  unfoldable pub do_get_pages :
      Payload → ℕ → Text → Url → Text → Text → Text → S.World → Option Pages
  unfolding fetch_pages
  do_get_pages payload fuel token base prefix container extra_params w =
      fetch_pages 10001 payload fuel token base prefix container extra_params [] w

  -- `doGetEntries`: `getPages` takes a container where `extra_params` stands in the call.
  unfoldable pub do_get_entries : ℕ → Text → Url → Text → Text → S.World → Option Pages
  unfolding do_get_pages
  do_get_entries fuel token base prefix extra_params w =
      do_get_pages lines_payload fuel token base prefix extra_params [] w

  -- The parameters that `doJSONGetEntries` asks with.
  unfoldable json_params : Text → Text
  json_params [] = codes "format=json"
  json_params (c ∷ extra_params) = (c ∷ extra_params) ++ codes "&format=json"

  -- `doJSONGetEntries`. It hands each page over to the JSON library before it goes through it: `left`
  -- is what that leaves of the page.
  unfoldable do_json_get_entries :
      (List Text → List Text) → ℕ → Text → Url → Text → Text → S.World → Option Pages
  unfolding do_get_pages json_params
  do_json_get_entries left fuel token base prefix extra_params w =
      elim (do_get_pages json_payload fuel token base prefix (json_params extra_params) [] w) [
        | none ↦ none
        | some r ↦ some (record r { pages = map left r.pages })
      ]

-- `listContainer` for an entry, `restrict_to_remote_dir` set. `none` is the exception of `getURL`, or
-- fuel that ran out.
unfoldable pub list_container :
    {Regex : Type 0} (S : Server)
    → ℕ
    → Rackspace
    → ConfigEntry Regex
    → Text
    → S.World
    → Option Pages
unfolding get_url do_get_entries
list_container S fuel rs entry extra_params w = elim (get_url rs entry.region entry.snet) [
  | none ↦ none
  | some base ↦ do_get_entries S fuel rs.token base entry.remote_dir extra_params w
]
