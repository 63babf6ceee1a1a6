-- ===== src/Jobs/Md5.antt =====
-- `md5_from_file` of src/jobs/upload.cpp.
use cdnalizerd.Base.{
  ℕ, ◌+◌, ◌-◌, ◌*◌, ◌/◌, ◌%◌, ◌≡◌, ◌<◌, refl, ap, ◌∙◌, true, false, [], ◌∷◌, arith, ltb,
  if◌then◌else◌, Each,
}
use cdnalizerd.Base.Text.{Text}
use cdnalizerd.Jobs.Http.{boost_exception, Try, ok, throw, Outside}

-- One digit as `std::hex` writes it.
unfoldable hex_char : ℕ → ℕ
hex_char n = if ltb n 10 then b'0' + n else b'a' + (n - 10)

-- `setw(2) << (int)c` for each byte of the digest.
unfoldable pub hex : Text → Text
unfolding hex_char
hex [] = []
hex (c ∷ digest) = hex_char (c / 16) ∷ hex_char (c % 16) ∷ hex digest

-- An empty text stands for no regular file. Each handler throws an exception that is a boost
-- exception.
unfoldable pub md5_from_file : (o : Outside) → Text → o.World → Try Text
unfolding hex
md5_from_file o path w = elim (o.is_regular_file path w) [
  | throw _ ↦ throw boost_exception
  | ok false ↦ ok []
  | ok true ↦ elim (o.mapped path w) [
    | throw _ ↦ throw boost_exception
    | ok bytes ↦ ok (hex (o.md5 bytes))
  ]
]

-- A digit read back.
abbrev digit_value : ℕ → ℕ
digit_value c = if ltb c b'a' then c - b'0' else c - b'a' + 10

abbrev unhex : Text → Text
unhex (a ∷ b ∷ t) = (digit_value a * 16 + digit_value b) ∷ unhex t
unhex _ = []

digit_value-hex_char : (n : ℕ) → n < 16 → digit_value (hex_char n) ≡ n
unfolding hex_char
digit_value-hex_char n h = ground arith

byte_back :
    (c : ℕ) → c < 256 → digit_value (hex_char (c / 16)) * 16 + digit_value (hex_char (c % 16)) ≡ c
byte_back c h =
    rw (digit_value-hex_char (c / 16) (omega arith), digit_value-hex_char (c % 16) (omega arith))
      (omega arith)

-- Reading the hexadecimal digits two at a time gives the bytes of a digest back.
unhex-hex : (digest : Text) → Each (λ c. c < 256) digest → unhex (hex digest) ≡ digest
unfolding hex
unhex-hex [] h = refl
unhex-hex (c ∷ digest) h =
    ap (λ x. x ∷ unhex (hex digest)) (byte_back c h.0) ∙ ap (◌∷◌ c) (unhex-hex digest h.1)
