-- ===== src/Tests/Urls.antt =====
-- URLs and paths at concrete data.
use cdnalizerd.Base.{◌≡◌, refl, true, [], ◌∷◌, ◌++◌, some, arith, Each}
use cdnalizerd.Base.Text.{codes}
use cdnalizerd.Utils.{back, front}
use cdnalizerd.Url.{destination}
use cdnalizerd.Url.Join.{join_slashes}
use cdnalizerd.Url.Join.Laws.{bare, before, both, Given, done, part}
use cdnalizerd.Url.Encode.{urlencode}
use cdnalizerd.Url.Encode.Laws.{outside, decode, decode-urlencode}
use cdnalizerd.Url.Parser.{
  Url, empty_url, parsed, parse_error, parse, target, actions_on, scheme_end, user_start,
  host_start,
}
use cdnalizerd.Url.Parser.Grammar.{authority, next, target-next, is_host, is_path, is_search}
use cdnalizerd.Url.Parser.Laws.{Parts, IsParts, IsSearch, parse-url_text}
use cdnalizerd.Url.Parts.{IsPlain}
use cdnalizerd.Url.Destination.{destination-Given, destination-tilde}

abbrev account : Parts
account = record { secure = true; first = b's'; more = codes "t.co"; path = codes "v1/A" }

account-IsParts : IsParts account
unfolding is_host is_path
account-IsParts = record { host = ground arith; path = ground arith }

abbrev account_url : Url
account_url = record empty_url { raw = codes "https://st.co/v1/A" }

parse_account :
    parse (codes "https://st.co/v1/A")
    ≡ parsed (record {
      raw = codes "https://st.co/v1/A";
      scheme = codes "https://";
      user = [];
      password = [];
      host = codes "st.co";
      port = [];
      path = codes "/v1/A";
      search = [];
      path_and_search = codes "/v1/A";
    })
unfolding parse
parse_account = refl

-- The user, the password and the port; a port without a user leaves the host as the user too.
parse_login :
    parse (codes "http://u:p@h:80/a")
    ≡ parsed (record {
      raw = codes "http://u:p@h:80/a";
      scheme = codes "http://";
      user = codes "u";
      password = codes "p";
      host = codes "h";
      port = codes "80";
      path = codes "/a";
      search = [];
      path_and_search = codes "/a";
    })
unfolding parse
parse_login = refl

parse_port :
    parse (codes "http://h:80/")
    ≡ parsed (record {
      raw = codes "http://h:80/";
      scheme = codes "http://";
      user = codes "h";
      password = [];
      host = codes "h";
      port = codes "80";
      path = codes "/";
      search = [];
      path_and_search = codes "/";
    })
unfolding parse
parse_port = refl

parse_bad : parse (codes "ftp://h/") ≡ parse_error 0
unfolding parse
parse_bad = refl

parse_short : parse (codes "http") ≡ parse_error 4
unfolding parse
parse_short = refl

encode_run : urlencode (codes "a b/" ++ 195 ∷ 169 ∷ []) ≡ codes "a%20b/%C3%A9"
unfolding urlencode
encode_run = refl

destination_run :
    destination account_url (codes "c") (codes "/img/") (codes "/a b.png")
    ≡ some (parse (codes "https://st.co/v1/A/c/img/a%20b.png"))
unfolding destination join_slashes urlencode
destination_run = refl

IsPlain-letters :
    Each IsPlain (codes "c") × Each IsPlain (codes "img") × Each IsPlain (codes "a b.png")
IsPlain-letters = ground arith

img_part : Given (codes "img" ∷ codes "a b.png" ∷ []) (codes "/img/" ∷ codes "/a b.png" ∷ [])
unfolding front back
img_part =
    part (record { filled = λ e. cc; begins = refl; ends = refl }) both
      (part (record { filled = λ e. cc; begins = refl; ends = refl }) before done)

three_parts :
    Given
      (codes "c" ∷ codes "img" ∷ codes "a b.png" ∷ [])
      (codes "c" ∷ codes "/img/" ∷ codes "/a b.png" ∷ [])
unfolding front back
three_parts = part (record { filled = λ e. cc; begins = refl; ends = refl }) bare img_part

destination-Given_example :
    (v : Url) × (destination account_url (codes "c") (codes "/img/") (codes "/a b.png")
      ≡ some (parsed v))
    × (v.scheme ≡ codes "https://")
    × (v.host ≡ codes "st.co")
    × (v.port ≡ [])
    × (v.search ≡ [])
    × (v.path ≡ codes "/v1/A/c/img/a%20b.png")
    × (v.path_and_search ≡ v.path)
unfolding urlencode back
destination-Given_example =
    destination-Given account account-IsParts account_url refl refl (codes "c") (codes "/img/")
      (codes "/a b.png") {bs = codes "c" ∷ codes "img" ∷ codes "a b.png" ∷ []}
      (IsPlain-letters.0, (IsPlain-letters.1, (IsPlain-letters.2, tt))) three_parts

tilde_parts :
    Given (codes "c" ∷ codes "img" ∷ codes "a~b" ∷ []) (codes "c" ∷ codes "img" ∷ codes "/a~b" ∷ [])
unfolding front back
tilde_parts =
    part (record { filled = λ e. cc; begins = refl; ends = refl }) bare
      (part (record { filled = λ e. cc; begins = refl; ends = refl }) bare
        (part (record { filled = λ e. cc; begins = refl; ends = refl }) before done))

destination-tilde_example :
    destination account_url (codes "c") (codes "img") (codes "/a~b") ≡ some (parse_error 26)
unfolding urlencode back
destination-tilde_example =
    destination-tilde account account-IsParts account_url refl refl (codes "c") (codes "img")
      (codes "/a~b") (codes "c" ∷ codes "img" ∷ []) (codes "a") (codes "b")
      (IsPlain-letters.0, (IsPlain-letters.1, tt)) (ground arith) (ground arith) tilde_parts

decode-urlencode_example : decode outside (urlencode (codes "a%2 ~")) ≡ codes "a%2 ~"
decode-urlencode_example = decode-urlencode (codes "a%2 ~") (omega arith)

target-next_example :
    (target 8 b's' ≡ 21) × (actions_on 8 b's' ≡ scheme_end ∷ user_start ∷ host_start ∷ [])
unfolding next
target-next_example = target-next authority b's' (omega arith)

parse-url_text_example :
    parse (codes "https://st.co/v1/A")
    ≡ parsed (record {
      raw = codes "https://st.co/v1/A";
      scheme = codes "https://";
      user = [];
      password = [];
      host = codes "st.co";
      port = [];
      path = codes "/v1/A";
      search = [];
      path_and_search = codes "/v1/A";
    })
parse-url_text_example = parse-url_text account account-IsParts

abc-IsSearch : IsSearch (codes "x=1")
unfolding is_search
abc-IsSearch = ground arith
