-- ===== src/Url/Encode/Laws.antt =====
-- What `urlencode` of src/url.cpp promises: its output can be decoded, and keeps to the URL alphabet.
use cdnalizerd.Base.{
  ℕ, ◌+◌, ◌-◌, ◌*◌, ◌<◌, ◌≡◌, refl, ◌∙◌, ap, true, ◌||◌, [], ◌∷◌, ◌++◌, arith, leb, ◌==◌,
  if◌then◌else◌, Each, Each-append,
}
use cdnalizerd.Base.Text.{Text}
use cdnalizerd.Url.Encode.{is_alnum, is_kept, encode_byte, urlencode}

abbrev pub IsByte : ℕ → Type 0
IsByte c = c < 256

hex_value : ℕ → ℕ
hex_value d = if leb d b'9' then d - b'0' else d + 10 - b'A'

-- Where a percent decoder is: outside an escape, after its sign, or after its first digit.
pub data Place : Type 0 where
  outside : Place
  sign : Place
  high : ℕ → Place

-- Percent decoding, as a server does it.
pub decode : Place → Text → Text
decode _ [] = []
decode outside (c ∷ r) =
    let escaped = decode sign r in
    let plain = c ∷ decode outside r in if c == b'%' then escaped else plain
decode sign (c ∷ r) = decode (high (hex_value c)) r
decode (high h) (c ∷ r) = (h * 16 + hex_value c) ∷ decode outside r

decode-encode_byte :
    (c : ℕ) (r : Text) → IsByte c → decode outside (encode_byte c ++ r) ≡ c ∷ decode outside r
unfolding decode encode_byte hex_value
decode-encode_byte c r h = ground arith

-- Decoding the escapes gives every path of bytes back.
pub decode-urlencode : (path : Text) → Each IsByte path → decode outside (urlencode path) ≡ path
unfolding urlencode decode
decode-urlencode [] h = refl
decode-urlencode (c ∷ path) h =
    decode-encode_byte c (urlencode path) h.0 ∙ ap (◌∷◌ c) (decode-urlencode path h.1)

-- The bytes that may stand in an encoded path.
abbrev pub IsLegal : ℕ → Type 0
IsLegal c = (is_alnum c || is_kept c || c == b'%') ≡ true

encode_byte-IsLegal : (c : ℕ) → IsByte c → Each IsLegal (encode_byte c)
unfolding encode_byte
encode_byte-IsLegal c h = ground arith

urlencode-IsLegal : (path : Text) → Each IsByte path → Each IsLegal (urlencode path)
unfolding urlencode
urlencode-IsLegal [] h = tt
urlencode-IsLegal (c ∷ path) h =
    Each-append IsLegal (encode_byte c) (urlencode path) (encode_byte-IsLegal c h.0)
      (urlencode-IsLegal path h.1)
