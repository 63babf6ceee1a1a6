-- ===== src/Tests/Listings.antt =====
-- Listings at concrete data.
use cdnalizerd.Base.{
  flat, ℕ, suc, ◌+◌, ◌*◌, ◌≤◌, ◌≡◌, ◌↔◌, refl, Bool, true, false, List, [], ◌∷◌, ◌++◌, Option, none,
  some, arith, take, drop, length, ap, Each, append-nil, append_assoc,
}
use cdnalizerd.Base.Text.{Text, codes, text_lt}
use cdnalizerd.Config.{ConfigEntry}
use cdnalizerd.Url.Parser.{Url, empty_url}
use cdnalizerd.Account.{Rackspace, get_url}
use cdnalizerd.Listing.{Server, Pages, json_payload, do_get_pages, list_container, page_target}
use cdnalizerd.Listing.Requests.{account_request, IsEmptyReply, list_container-no_entries}
use cdnalizerd.Listing.Names.{is_plain, IsName, last_one, before, behind}
use cdnalizerd.Listing.Paging.{page_reply, IsPaging, do_get_pages_complete}

abbrev names : List Text
names = codes "a" ∷ codes "b/c" ∷ []

-- The same page for every request: all that is behind the marker that the world holds.
abbrev server : Server
server = record {
  World = Text;
  exchange = λ request w. (some (record { status = 200; body = codes "a\nb/c\n" }), w);
  json_to_lines = λ body. none;
}

abbrev base : Url
base = record empty_url { raw = codes "http://h/v1"; host = codes "h"; path = codes "/v1" }

abbrev account : Rackspace
account = record { token = codes "t"; public_urls = (codes "r", base) ∷ []; private_urls = [] }

abbrev entry : ConfigEntry ℕ
entry = record {
  username = codes "u";
  apikey = codes "k";
  region = codes "r";
  container = codes "c";
  snet = false;
  move = false;
  local_dir = codes "/d";
  remote_dir = codes "x";
  files_to_ignore = [];
  directories_to_ignore = [];
}

list_container-no_entries_example :
    (thrown : Bool) × (list_container server 1 account entry [] []
      ≡ some (record {
        requests = account_request (codes "t") base (codes "x") ∷ [];
        pages = [];
        thrown = thrown;
      }))
    × ((thrown ≡ false) ↔ IsEmptyReply (some (record { status = 200; body = codes "a\nb/c\n" })))
unfolding get_url cdnalizerd.Base.Maps.find cdnalizerd.Base.Text.text_eq
list_container-no_entries_example =
    list_container-no_entries server (λ body. refl) 0 account entry base [] refl

-- A server that reads the marker from the target, where it stands after 25 bytes.
abbrev paging_server : Server
paging_server = record {
  World = ℕ;
  exchange =
      λ request w. (some (page_reply (take 10000 (behind (drop 25 request.target) names))), suc w);
  json_to_lines = λ body. none;
}

paging_server-IsPaging : IsPaging paging_server base (codes "t") [] (codes "c") [] names 10000
unfolding page_target
paging_server-IsPaging [] w p = refl
paging_server-IsPaging (c ∷ m) w p =
    ap (λ t. some (page_reply (take 10000 (behind (drop 25 t) names))))
      (ap (◌++◌ (codes "/v1/c?limit=10001&marker=")) (simp (append-nil)))

names-IsName : Each IsName names
unfolding is_plain
names-IsName = (
  record { filled = refl; plain = (refl, tt) },
  (record { filled = refl; plain = (refl, (refl, (refl, tt))) }, tt),
)

do_get_pages_complete_example :
    (r : Pages) × (do_get_pages paging_server json_payload 3 (codes "t") base [] (codes "c") [] 0
      ≡ some r)
    × (flat r.pages ≡ names)
    × (r.thrown ≡ false)
    × (length r.requests * 10000 ≤ 10002)
unfolding text_lt
do_get_pages_complete_example =
    do_get_pages_complete paging_server base (codes "t") [] (codes "c") [] names 3 0 (omega arith)
      (before refl last_one) names-IsName paging_server-IsPaging
