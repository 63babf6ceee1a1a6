-- ===== src/Url/Parser/Laws.antt =====
-- What `URL::parse` (src/url_parser.hpp) makes of whole URLs.
use cdnalizerd.Base.{
  ℕ, suc, ◌+◌, ◌<◌, ◌≡◌, refl, ◌∙◌, sym, ap, ap₂, Bool, true, false, [], ◌∷◌, ◌++◌, none, some,
  arith, ◌==◌, ltb, if◌then◌else◌, Each, length, length-append, take-append_self, append_assoc,
  append-nil,
}
use native.Mathlib.Nat.{sub-zero}
use cdnalizerd.Base.Text.{Text, codes}
use cdnalizerd.Utils.{slash}
use cdnalizerd.Url.Parser.{
  Url, empty_url, Machine, Parsed, parsed, parse_error, act_all, slice, run, parse, scheme_end,
  user_start, host_start, host_end, path_start, path_end, search_start,
}
use cdnalizerd.Url.Parser.Grammar.{
  begin, authority, host_or_user, path_more, search_first, search_more, next, is_host, is_path,
  is_search,
}
use cdnalizerd.Url.Parser.Runs.{
  at_place, run_accept, run_reject, run_many, slice_middle, run_http, run_https,
}

abbrev pub IsHost : Text → Type 0
IsHost = Each (λ c. is_host c ≡ true)

abbrev pub IsPath : Text → Type 0
IsPath = Each (λ c. is_path c ≡ true)

abbrev pub IsSearch : Text → Type 0
IsSearch = Each (λ c. is_search c ≡ true)

-- "https://" or "http://".
abbrev pub scheme_text : Bool → Text
scheme_text true = codes "https://"
scheme_text false = codes "http://"

run_scheme :
    (secure : Bool) (raw rest : Text) (u : Url)
    → run raw (scheme_text secure ++ rest) 0 (at_place begin (0, u))
      ≡ run raw rest (length (scheme_text secure)) (at_place authority (0, u))
run_scheme true = run_https
run_scheme false = run_http

host_loops :
    (c : ℕ) → is_host c ≡ true → (c < 256) × (next host_or_user c ≡ some (host_or_user, []))
unfolding next
host_loops c h = ground arith

path_loops : (c : ℕ) → is_path c ≡ true → (c < 256) × (next path_more c ≡ some (path_more, []))
unfolding next
path_loops c h = ground arith

search_loops :
    (c : ℕ) → is_search c ≡ true → (c < 256) × (next search_more c ≡ some (search_more, []))
unfolding next
search_loops c h = ground arith

first_host :
    (c : ℕ)
    → is_host c ≡ true
    → next authority c ≡ some (host_or_user, scheme_end ∷ user_start ∷ host_start ∷ [])
unfolding next
first_host c h = ground arith

host_byte : (c : ℕ) → is_host c ≡ true → c < 256
unfolding is_host
host_byte c h = ground arith

slash_after_host : next host_or_user slash ≡ some (path_more, host_end ∷ path_start ∷ [])
unfolding next
slash_after_host = refl

at_path :
    (raw rest s t h k : Text) (p q : ℕ)
    → p ≡ q
    → s ≡ t
    → h ≡ k
    → run raw rest
        (suc p)
        (at_place path_more (p, record empty_url { raw = raw; scheme = s; host = h }))
      ≡ run raw rest
          (suc q)
          (at_place path_more (q, record empty_url { raw = raw; scheme = t; host = k }))
at_path raw rest s t h k p q ep es eh = rw (ep, es, eh) refl

slice_front : (a b : Text) → slice (a ++ b) 0 (length a) ≡ a
slice_front a b = rw (sub-zero (length a)) (take-append_self a b)

module _ (secure : Bool) (h : ℕ) (hs : Text) (host : IsHost (h ∷ hs)) where
  abbrev start_of_host : ℕ
  start_of_host = length (scheme_text secure)

  abbrev start_of_path : ℕ
  start_of_path = start_of_host + length (h ∷ hs)

  abbrev with_host : Text → Url
  with_host raw = record empty_url { raw = raw; scheme = scheme_text secure; host = h ∷ hs }

  host_slice :
      (rest : Text) (p : ℕ)
      → p ≡ start_of_path
      → slice (scheme_text secure ++ (h ∷ hs ++ (slash ∷ rest))) start_of_host p ≡ h ∷ hs
  host_slice rest p e = rw e (slice_middle (scheme_text secure) (h ∷ hs) (slash ∷ rest))

  -- The run as far as the first slash after the host.
  run_to_path :
      (rest : Text)
      → let raw : Text = scheme_text secure ++ (h ∷ hs ++ (slash ∷ rest)) in
        run raw raw 0 (at_place begin (0, record empty_url { raw = raw }))
        ≡ run raw rest (suc start_of_path) (at_place path_more (start_of_path, with_host raw))
  unfolding act_all
  run_to_path rest =
      let raw : Text = scheme_text secure ++ (h ∷ hs ++ (slash ∷ rest)) in
      let p : ℕ = suc start_of_host + length hs in
      let p-eq : p ≡ start_of_path = omega arith in
      let u : Url = record empty_url { raw = raw; scheme = slice raw 0 start_of_host } in
      run_scheme secure raw (h ∷ hs ++ (slash ∷ rest)) (record empty_url { raw = raw })
      ∙ run_accept raw start_of_host h (hs ++ (slash ∷ rest)) authority host_or_user _ 0 _
          (host_byte h host.0) (first_host h host.0)
      ∙ run_many is_host raw (suc start_of_host) hs (slash ∷ rest) host_or_user start_of_host u
          host_loops host.1
      ∙ run_accept raw p slash rest host_or_user path_more _ start_of_host u (omega arith)
          slash_after_host
      ∙ at_path raw rest (slice raw 0 start_of_host) (scheme_text secure)
          (slice raw start_of_host p) (h ∷ hs) p start_of_path p-eq
          (slice_front (scheme_text secure) (h ∷ hs ++ (slash ∷ rest))) (host_slice rest p p-eq)

result_of : Machine × ℕ → Parsed
result_of (m, p) =
    if ltb m.cs 16
    then parse_error p
    else parsed (record (m.url) { path_and_search = m.url.path ++ m.url.search })

parse_lem :
    (raw : Text)
    → parse raw ≡ result_of (run raw raw 0 (at_place begin (0, record empty_url { raw = raw })))
unfolding parse result_of
parse_lem raw = refl

bad_path_byte : (c : ℕ) → is_path c ≡ false → (c == b'?') ≡ false → next path_more c ≡ none
unfolding next
bad_path_byte c h k = ground arith

run_end_path :
    (raw : Text) (p start : ℕ) (u : Url)
    → run raw [] p (at_place path_more (start, u))
      ≡ (at_place path_more (start, record u { path = slice raw start p }), p)
unfolding run
run_end_path raw p start u = refl

run_end_search :
    (raw : Text) (p start : ℕ) (u : Url)
    → run raw [] p (at_place search_more (start, u))
      ≡ (at_place search_more (start, record u { search = slice raw start p }), p)
unfolding run
run_end_search raw p start u = refl

question : next path_more b'?' ≡ some (search_first, path_end ∷ [])
unfolding next
question = refl

first_search :
    (c : ℕ) → is_search c ≡ true → next search_first c ≡ some (search_more, search_start ∷ [])
unfolding next
first_search c h = ground arith

-- The parts of a URL.
pub record Parts : Type 0 where
  pub secure : Bool
  pub first : ℕ
  pub more : Text
  pub path : Text

-- Each part keeps to its alphabet; a host is not empty.
pub record IsParts (x : Parts) : Type 0 where
  pub host : IsHost (x.first ∷ x.more)
  pub path : IsPath x.path

abbrev pub host_of : Parts → Text
host_of x = x.first ∷ x.more

-- The URL's text up to the end of the path, with what follows.
abbrev pub url_text : Parts → Text → Text
url_text x rest = scheme_text x.secure ++ (host_of x ++ (slash ∷ x.path ++ rest))

-- Where the path of `url_text` ends.
abbrev pub end_of_path : Parts → ℕ
end_of_path x = length (scheme_text x.secure) + length (host_of x) + length (slash ∷ x.path)

abbrev url_of : Parts → Text → Url
url_of x raw = record empty_url { raw = raw; scheme = scheme_text x.secure; host = host_of x }

module _ (x : Parts) (valid : IsParts x) where
  abbrev path_place : ℕ
  path_place = length (scheme_text x.secure) + length (host_of x)

  run_to_end_of_path :
      (rest : Text)
      → let raw : Text = url_text x rest in
        run raw raw 0 (at_place begin (0, record empty_url { raw = raw }))
        ≡ run raw rest (end_of_path x) (at_place path_more (path_place, url_of x raw))
  run_to_end_of_path rest =
      let raw : Text = url_text x rest in
      run_to_path x.secure x.first x.more valid.host (x.path ++ rest)
      ∙ run_many is_path raw (suc path_place) x.path rest path_more path_place (url_of x raw)
          path_loops valid.path
      ∙ ap (λ n. run raw rest n (at_place path_more (path_place, url_of x raw))) (omega arith)

  path_slice : (rest : Text) → slice (url_text x rest) path_place (end_of_path x) ≡ slash ∷ x.path
  path_slice rest =
      ap₂ (λ t n. slice t n (n + length (slash ∷ x.path)))
        (sym (append_assoc (scheme_text x.secure) (host_of x) (slash ∷ x.path ++ rest)))
        (sym (length-append (scheme_text x.secure) (host_of x)))
      ∙ slice_middle (scheme_text x.secure ++ host_of x) (slash ∷ x.path) rest

  -- A URL with a scheme, a host and a path, all over their alphabets, parses to exactly these parts:
  -- nothing else is set, and the request target is the path with its leading slash.
  pub parse-url_text :
      parse (url_text x [])
      ≡ parsed (record (url_of x (url_text x [])) {
        path = slash ∷ x.path;
        path_and_search = slash ∷ x.path;
      })
  unfolding result_of
  parse-url_text =
      let raw : Text = url_text x [] in
      parse_lem raw
      ∙ ap result_of
          (run_to_end_of_path [] ∙ run_end_path raw (end_of_path x) path_place (url_of x raw))
      ∙ rw (path_slice [], append-nil x.path) refl

  query_text :
      (query : Text)
      → url_text x (b'?' ∷ query)
        ≡ (scheme_text x.secure ++ (host_of x ++ (slash ∷ x.path ++ b'?' ∷ []))) ++ (query ++ [])
  query_text query = simp (append_assoc, append-nil)

  length-before :
      suc (end_of_path x)
      ≡ length (scheme_text x.secure ++ (host_of x ++ (slash ∷ x.path ++ b'?' ∷ [])))
  length-before = omega (
    arith,
    length-append (scheme_text x.secure) (host_of x ++ (slash ∷ x.path ++ b'?' ∷ [])),
    length-append (host_of x) (slash ∷ x.path ++ b'?' ∷ []),
    length-append x.path (b'?' ∷ []),
  )

  query_slice :
      (query : Text) (p : ℕ)
      → p ≡ suc (end_of_path x) + length query
      → slice (url_text x (b'?' ∷ query)) (suc (end_of_path x)) p ≡ query
  query_slice query p e =
      let before : Text = scheme_text x.secure ++ (host_of x ++ (slash ∷ x.path ++ b'?' ∷ [])) in
      rw e (
        ap₂ (λ t n. slice t n (n + length query)) (query_text query) length-before
        ∙ slice_middle before query [])

  run_query :
      (q : ℕ) (query : Text) (u : Url) (raw : Text)
      → IsSearch (q ∷ query)
      → run raw (b'?' ∷ q ∷ query) (end_of_path x) (at_place path_more (path_place, u)) ≡ (
        at_place search_more (
          suc (end_of_path x),
          record u {
            path = slice raw path_place (end_of_path x);
            search = slice raw (suc (end_of_path x)) (suc (suc (end_of_path x)) + length query);
          },
        ),
        suc (suc (end_of_path x)) + length query,
      )
  unfolding act_all
  run_query q query u raw h =
      let n : ℕ = end_of_path x in
      let v : Url = record u { path = slice raw path_place n } in
      run_accept raw n b'?' (q ∷ query) path_more search_first _ path_place u (omega arith) question
      ∙ run_accept raw (suc n) q query search_first search_more _ path_place v
          (search_loops q h.0).0 (first_search q h.0)
      ∙ ap (λ t. run raw t (suc (suc n)) (at_place search_more (suc n, v))) (sym (append-nil query))
      ∙ run_many is_search raw (suc (suc n)) query [] search_more (suc n) v search_loops h.1
      ∙ run_end_search raw (suc (suc n) + length query) (suc n) v

  -- A query after the path is kept apart, and the request target is the path with the query behind
  -- it, without the question mark.
  parse-query :
      (q : ℕ) (query : Text)
      → IsSearch (q ∷ query)
      → parse (url_text x (b'?' ∷ q ∷ query))
        ≡ parsed (record (url_of x (url_text x (b'?' ∷ q ∷ query))) {
          path = slash ∷ x.path;
          search = q ∷ query;
          path_and_search = (slash ∷ x.path) ++ q ∷ query;
        })
  unfolding result_of
  parse-query q query h =
      let raw : Text = url_text x (b'?' ∷ q ∷ query) in
      parse_lem raw
      ∙ ap result_of
          (run_to_end_of_path (b'?' ∷ q ∷ query) ∙ run_query q query (url_of x raw) raw h)
      ∙ rw
          (
            path_slice (b'?' ∷ q ∷ query),
            query_slice (q ∷ query) (suc (suc (end_of_path x)) + length query) (omega arith),
          )
          refl

  -- A byte in the path outside its alphabet is a parse error at that byte.
  pub parse-bad_path :
      (c : ℕ) (rest : Text)
      → c < 256
      → is_path c ≡ false
      → (c == b'?') ≡ false
      → parse (url_text x (c ∷ rest)) ≡ parse_error (end_of_path x)
  unfolding result_of
  parse-bad_path c rest b h k =
      let raw : Text = url_text x (c ∷ rest) in
      parse_lem raw
      ∙ ap result_of (
          run_to_end_of_path (c ∷ rest)
          ∙ run_reject raw (end_of_path x) c rest path_more path_place (url_of x raw) b
              (bad_path_byte c h k))
