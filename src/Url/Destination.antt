-- ===== src/Url/Destination.antt =====
-- The address of a file, `url / container / remote_dir / localRelativePath` over src/url.hpp: when it
-- is the intended one, and when it is none.
use cdnalizerd.Base.{
  ◌≡◌, ◌≢◌, refl, sym, ap, ◌∙◌, true, false, List, [], ◌∷◌, ◌++◌, map, none, some, arith,
  append_assoc, append-nil, Each, Each-append, Each-imp,
}
use cdnalizerd.Base.Text.{Text}
use cdnalizerd.Utils.{slash, back, front, is_slash}
use cdnalizerd.Url.Join.{join_slashes}
use cdnalizerd.Url.Join.Laws.{
  IsBare, bare, Given, part, joined, join_slashes-Given, join_slashes_single_slash,
}
use cdnalizerd.Url.Encode.{urlencode}
use cdnalizerd.Url.Encode.Laws.{IsByte}
use cdnalizerd.Url.Parser.{Url, parsed, parse_error, parse}
use cdnalizerd.Url.Parser.Grammar.{is_path}
use cdnalizerd.Url.Parser.Laws.{
  IsPath, scheme_text, Parts, IsParts, host_of, url_text, end_of_path, parse-url_text,
  parse-bad_path,
}
use cdnalizerd.Url.Parts.{IsPlain, urlencode-IsPath, urlencode-append, Given-urlencode}
use cdnalizerd.Url.{UnparsedUrl, destination, url_of_unparsed}

-- The path that some parts make: a slash and the encoded part for each.
abbrev path_tail : List Text → Text
path_tail [] = []
path_tail (b ∷ bs) = slash ∷ urlencode b ++ path_tail bs

abbrev extend : Parts → Text → Parts
extend x t = record x { path = x.path ++ t }

joined-tail : (a : Text) (bs : List Text) → joined (a ∷ map urlencode bs) ≡ a ++ path_tail bs
joined-tail a [] = sym (append-nil a)
joined-tail a (b ∷ bs) = ap (λ t. a ++ slash ∷ t) (joined-tail (urlencode b) bs)

path_tail-append : (bs cs : List Text) → path_tail (bs ++ cs) ≡ path_tail bs ++ path_tail cs
path_tail-append [] cs = refl
path_tail-append (b ∷ bs) cs =
    ap (λ t. slash ∷ urlencode b ++ t) (path_tail-append bs cs)
    ∙ ap (◌∷◌ slash) (sym (append_assoc (urlencode b) (path_tail bs) (path_tail cs)))

path_tail-IsPath : (bs : List Text) → Each (Each IsPlain) bs → IsPath (path_tail bs)
unfolding is_path
path_tail-IsPath [] h = tt
path_tail-IsPath (b ∷ bs) h = (
  refl,
  Each-append (λ c. is_path c ≡ true) (urlencode b) (path_tail bs) (urlencode-IsPath b h.0)
      (path_tail-IsPath bs h.1),
)

plain_bytes : (bs : List Text) → Each (Each IsPlain) bs → Each (Each IsByte) bs
plain_bytes bs =
    Each-imp (Each IsPlain) (Each IsByte) bs (λ b. Each-imp IsPlain IsByte b (λ c p. p.byte))

url_text-extend :
    (x : Parts) (t rest : Text) → url_text x [] ++ (t ++ rest) ≡ url_text (extend x t) rest
url_text-extend x t rest = simp (append_assoc, append-nil)

begins_bare : (x : Parts) → is_slash (front (url_text x [])) ≡ false
unfolding front
begins_bare x = ground arith

url_text_filled : (x : Parts) → url_text x [] ≢ []
url_text_filled x h = ground arith

built :
    (url : UnparsedUrl) (raw : Text)
    → join_slashes url.parts ≡ some raw
    → url_of_unparsed url ≡ some (parse raw)
unfolding url_of_unparsed
built url raw e = rw (e, url_of_unparsed) refl

module _ (x : Parts) (valid : IsParts x) (url : Url) (whole : url.raw ≡ url_text x [])
    (ends : is_slash (back (url_text x [])) ≡ false) where
  -- The text that is parsed.
  destination-text :
      (container remote_dir relative : Text) {bs : List Text}
      → Each (Each IsByte) bs
      → Given bs (container ∷ remote_dir ∷ relative ∷ [])
      → destination url container remote_dir relative ≡ some (parse (url_text x [] ++ path_tail bs))
  unfolding destination
  destination-text container remote_dir relative {bs} h g =
      let base : IsBare (url_text x []) = record {
        filled = url_text_filled x;
        begins = begins_bare x;
        ends = ends;
      } in
      built _ _ (
        rw whole (join_slashes-Given (part base bare (Given-urlencode h g)))
        ∙ ap some (joined-tail (url_text x []) bs))

  -- Take the URL of an account's storage that has a scheme, a host and a path over their alphabets
  -- and does not end with a slash, and a container, a remote directory and a relative path over
  -- bytes other than a tilde, each empty, or bare with or without one slash at either end. The
  -- address of the file then parses, with the scheme and the host of the account and no port and no
  -- query; its path, also as request target, is the account's path followed by a slash and the
  -- percent-encoded bare part for each part that is not empty.
  pub destination-Given :
      (container remote_dir relative : Text) {bs : List Text}
      → Each (Each IsPlain) bs
      → Given bs (container ∷ remote_dir ∷ relative ∷ [])
      → (v : Url) × (destination url container remote_dir relative ≡ some (parsed v))
        × (v.scheme ≡ scheme_text x.secure)
        × (v.host ≡ host_of x)
        × (v.port ≡ [])
        × (v.search ≡ [])
        × (v.path ≡ slash ∷ x.path ++ path_tail bs)
        × (v.path_and_search ≡ v.path)
  destination-Given container remote_dir relative {bs} h g = (
    _,
    destination-text container remote_dir relative (plain_bytes bs h) g
        ∙ ap (λ t. some (parse t))
            (ap (◌++◌ (url_text x [])) (sym (append-nil (path_tail bs)))
              ∙ url_text-extend x (path_tail bs) [])
        ∙ ap some (
            parse-url_text (extend x (path_tail bs)) (record {
              host = valid.host;
              path =
                  Each-append (λ c. is_path c ≡ true) x.path (path_tail bs) valid.path
                    (path_tail-IsPath bs h);
            })),
    refl,
    refl,
    refl,
    refl,
    refl,
    refl,
  )

  tilde_tail :
      (bs : List Text) (before after : Text)
      → path_tail (bs ++ (before ++ b'~' ∷ after) ∷ [])
        ≡ (path_tail bs ++ slash ∷ urlencode before) ++ b'~' ∷ urlencode after
  unfolding urlencode
  tilde_tail bs before after = simp (path_tail-append, urlencode-append, append-nil, append_assoc)

  -- Under the same assumptions on the account, and on the parts and bytes before it, a tilde in the
  -- last part always makes the address a parse error, at the position of that tilde.
  pub destination-tilde :
      (container remote_dir relative : Text) (bs : List Text) (before after : Text)
      → Each (Each IsPlain) bs
      → Each IsPlain before
      → Each IsByte after
      → Given (bs ++ (before ++ b'~' ∷ after) ∷ []) (container ∷ remote_dir ∷ relative ∷ [])
      → destination url container remote_dir relative
        ≡ some (parse_error (end_of_path (extend x (path_tail bs ++ slash ∷ urlencode before))))
  unfolding is_path
  destination-tilde container remote_dir relative bs before after h k l g =
      let y : Text = path_tail bs ++ slash ∷ urlencode before in
      destination-text container remote_dir relative
        (Each-append (Each IsByte) bs _ (plain_bytes bs h) (
          Each-append IsByte before _ (Each-imp IsPlain IsByte before (λ c p. p.byte) k)
              (omega arith, l),
          tt,
        ))
        g
      ∙ ap (λ t. some (parse t))
          (ap (◌++◌ (url_text x [])) (tilde_tail bs before after)
            ∙ url_text-extend x y (b'~' ∷ urlencode after))
      ∙ ap some (
          parse-bad_path (extend x y)
            (record {
              host = valid.host;
              path =
                  Each-append (λ c. is_path c ≡ true) x.path y valid.path
                    (Each-append (λ c. is_path c ≡ true) (path_tail bs) (slash ∷ urlencode before)
                      (path_tail-IsPath bs h) (refl, urlencode-IsPath before k));
            })
            b'~' (urlencode after) (omega arith) refl refl)

built_not : (url : UnparsedUrl) → join_slashes url.parts ≡ none → url_of_unparsed url ≡ none
unfolding url_of_unparsed
built_not url e = rw (e, url_of_unparsed) refl

urlencode-single_slash : urlencode (slash ∷ []) ≡ slash ∷ []
unfolding urlencode
urlencode-single_slash = refl

-- A remote directory that is a single slash makes the address undefined behaviour, whatever the
-- account's URL, the container and the path of the file.
destination_root :
    (url : Url) (container relative : Text) → destination url container (slash ∷ []) relative ≡ none
unfolding destination
destination_root url container relative = built_not _ (
    rw urlencode-single_slash
      (join_slashes_single_slash (url.raw ∷ urlencode container ∷ []) (urlencode relative ∷ [])))
