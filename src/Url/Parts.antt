-- ===== src/Url/Parts.antt =====
-- How `urlencode` and `joinSlashes` of src/url.cpp act together on the parts of a path.
use cdnalizerd.Base.{
  ℕ, ◌≡◌, ◌≢◌, refl, sym, ap, ◌∙◌, true, false, List, [], ◌∷◌, ◌++◌, map, arith, append_assoc,
  append-nil, ◌==◌, Each, Each-append,
}
use cdnalizerd.Base.Text.{Text}
use cdnalizerd.Utils.{slash, back, front, is_slash}
use cdnalizerd.Url.Join.Laws.{IsBare, Decorated, bare, before, after, both, Given, done, skip, part}
use cdnalizerd.Url.Encode.{encode_byte, urlencode}
use cdnalizerd.Url.Encode.Laws.{IsByte}
use cdnalizerd.Url.Parser.Grammar.{is_path}
use cdnalizerd.Url.Parser.Laws.{IsPath}

-- The bytes that a name may hold for its URL to be parsed again.
pub record IsPlain (c : ℕ) : Type 0 where
  pub byte : IsByte c
  pub no_tilde : (c == b'~') ≡ false

encode_byte-IsPath : (c : ℕ) → IsPlain c → IsPath (encode_byte c)
unfolding encode_byte is_path
encode_byte-IsPath c h = ground arith

pub urlencode-IsPath : (s : Text) → Each IsPlain s → IsPath (urlencode s)
unfolding urlencode
urlencode-IsPath [] h = tt
urlencode-IsPath (c ∷ s) h =
    Each-append (λ c. is_path c ≡ true) (encode_byte c) (urlencode s) (encode_byte-IsPath c h.0)
      (urlencode-IsPath s h.1)

pub urlencode-append : (a b : Text) → urlencode (a ++ b) ≡ urlencode a ++ urlencode b
unfolding urlencode
urlencode-append [] b = refl
urlencode-append (c ∷ a) b =
    ap (◌++◌ (encode_byte c)) (urlencode-append a b)
    ∙ sym (append_assoc (encode_byte c) (urlencode a) (urlencode b))

urlencode-slash : (s : Text) → urlencode (slash ∷ s) ≡ slash ∷ urlencode s
unfolding urlencode encode_byte
urlencode-slash s = refl

back-cons : (x : ℕ) (b : Text) → b ≢ [] → back (x ∷ b) ≡ back b
unfolding back
back-cons x [] h = absurd (h refl)
back-cons x (y ∷ b) h = refl

back-append : (a b : Text) → b ≢ [] → back (a ++ b) ≡ back b
back-append [] b h = refl
back-append (x ∷ []) b h = back-cons x b h
back-append (x ∷ y ∷ a) b h = back-cons x (y ∷ a ++ b) (λ e. cc) ∙ back-append (y ∷ a) b h

urlencode_filled : (c : ℕ) (s : Text) → urlencode (c ∷ s) ≢ []
unfolding urlencode encode_byte
urlencode_filled c s h = ground arith

front-encode_byte : (c : ℕ) (t : Text) → is_slash (front (encode_byte c ++ t)) ≡ (c == slash)
unfolding encode_byte front
front-encode_byte c t = ground arith

back-encode_byte : (c : ℕ) → IsByte c → is_slash (back (encode_byte c)) ≡ (c == slash)
unfolding encode_byte back
back-encode_byte c h = ground arith

front-urlencode : (s : Text) → is_slash (front (urlencode s)) ≡ is_slash (front s)
unfolding urlencode front
front-urlencode [] = refl
front-urlencode (c ∷ s) = front-encode_byte c (urlencode s)

back-urlencode : (s : Text) → Each IsByte s → is_slash (back (urlencode s)) ≡ is_slash (back s)
unfolding urlencode back
back-urlencode [] h = refl
back-urlencode (c ∷ []) h = rw (append-nil (encode_byte c)) (back-encode_byte c h.0)
back-urlencode (c ∷ d ∷ s) h =
    rw (back-append (encode_byte c) (urlencode (d ∷ s)) (urlencode_filled d s))
      (back-urlencode (d ∷ s) h.1)

urlencode-IsBare : (b : Text) → Each IsByte b → IsBare b → IsBare (urlencode b)
urlencode-IsBare [] h v = absurd (v.filled refl)
urlencode-IsBare (c ∷ b) h v = record {
  filled = urlencode_filled c b;
  begins = front-urlencode (c ∷ b) ∙ v.begins;
  ends = back-urlencode (c ∷ b) h ∙ v.ends;
}

urlencode-Decorated : {b s : Text} → Decorated b s → Decorated (urlencode b) (urlencode s)
unfolding urlencode
urlencode-Decorated bare = bare
urlencode-Decorated {b} before = rw (urlencode-slash b) before
urlencode-Decorated {b} after = rw (urlencode-append b (slash ∷ []), urlencode-slash []) after
urlencode-Decorated {b} both =
    rw (urlencode-slash (b ++ slash ∷ []), urlencode-append b (slash ∷ []), urlencode-slash []) both

-- Encoding the strings encodes the parts that they stand for.
pub Given-urlencode :
    {bs ss : List Text}
    → Each (Each IsByte) bs
    → Given bs ss
    → Given (map urlencode bs) (map urlencode ss)
unfolding urlencode
Given-urlencode h done = done
Given-urlencode h (skip g) = skip (Given-urlencode h g)
Given-urlencode h (part {b} v d g) =
    part (urlencode-IsBare b h.0 v) (urlencode-Decorated d) (Given-urlencode h.1 g)
