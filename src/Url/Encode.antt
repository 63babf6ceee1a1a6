-- ===== src/Url/Encode.antt =====
-- `urlencode` of src/url.cpp. Bytes are numbers below 256.
pub mod Laws
use cdnalizerd.Base.{
  ℕ, ◌+◌, ◌-◌, ◌/◌, ◌%◌, Bool, ◌&&◌, ◌||◌, List, [], ◌∷◌, ◌++◌, leb, ◌==◌, if◌then◌else◌,
}
use cdnalizerd.Base.Text.{Text}

-- The first test: a-z A-Z 0-9.
unfoldable pub is_alnum : ℕ → Bool
is_alnum c = (leb b'a' c && leb c b'z') || (leb b'A' c && leb c b'Z') || (leb b'0' c && leb c b'9')

-- The `case` labels that are copied as they are.
unfoldable pub is_kept : ℕ → Bool
is_kept c =
    c == b'.'
    || c == b'-'
    || c == b'_'
    || c == b'~'
    || c == b'!'
    || c == b'$'
    || c == b'&'
    || c == 39
    || c == b'('
    || c == b')'
    || c == b'*'
    || c == b'+'
    || c == b','
    || c == b';'
    || c == b'='
    || c == b':'
    || c == b'/'
    || c == b'@'

-- `'0' + n` or `'A' + n - 0x0A`
unfoldable hex_digit : ℕ → ℕ
hex_digit n = if leb n 9 then b'0' + n else b'A' + n - 10

unfoldable pub encode_byte : ℕ → Text
unfolding is_alnum is_kept hex_digit
encode_byte c =
    if is_alnum c
    then c ∷ []
    else if is_kept c
    then c ∷ []
    else b'%' ∷ hex_digit (c / 16) ∷ hex_digit (c % 16) ∷ []

unfoldable pub urlencode : Text → Text
unfolding encode_byte
urlencode [] = []
urlencode (c ∷ path) = encode_byte c ++ urlencode path
