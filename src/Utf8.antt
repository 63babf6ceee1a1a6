-- ===== src/Utf8.antt =====
-- experiments/utf8.cpp, the filter that writes UTF-8 as the inside of a JSON string. A text is the list
-- of its bytes. The masks on a byte are written as the source has them; on a `wchar_t` of 32 bits, a
-- shift by six bits with a disjunction of the low six, and a digit's shift and mask, are written as arithmetic.
pub mod Digits
pub mod Multibyte
pub mod Sentences
pub mod Rounds
use Prim.Native.Nat.{bit_and}
use cdnalizerd.Base.{
  ℕ, zero, suc, ◌+◌, ◌-◌, ◌*◌, ◌/◌, ◌%◌, ◌^◌, Bool, true, false, ◌&&◌, List, [], ◌∷◌, ◌++◌, Option,
  none, some, ltb, leb, length, ◌==◌, if◌then◌else◌, ◌>>=◌,
}
use cdnalizerd.Base.Text.{Text}

-- One digit of `hex`.
unfoldable hex_digit : ℕ → ℕ
hex_digit work = if leb 0xA work then b'A' - 0xA + work else b'0' + work

-- The loop of `hex`, `k` digits before its end: `shift` is four times `k` after the subtraction.
unfoldable hex_from : ℕ → Bool → ℕ → Text
unfolding hex_digit
hex_from zero still_zero number = []
hex_from (suc k) still_zero number =
    let work = number / 16 ^ k % 16 in
    elim (still_zero && (work == 0)) [
      | true ↦ hex_from k true number
      | false ↦ hex_digit work ∷ hex_from k false number
    ]

-- `hex` of a `wchar_t`.
unfoldable pub hex : ℕ → Text
unfolding hex_from
hex number = hex_from 8 true number

-- `while ((*in & mask) != mask)`: the digits to go, and the mask. After six rounds the mask is 0, which
-- ends the loop.
unfoldable find_mask : ℕ → ℕ → ℕ → ℕ → ℕ × ℕ
find_mask zero c digits_to_go mask = (digits_to_go, mask)
find_mask (suc rounds) c digits_to_go mask = elim (bit_and c mask == mask) [
  | true ↦ (digits_to_go, mask)
  | false ↦ find_mask rounds c (digits_to_go - 1) (mask * 2 % 256)
]

-- The loop on the other bytes, with the digits that are left after the decrement, and the exception
-- after it.
unfoldable read_on : ℕ → ℕ → Text → Option (ℕ × Text)
read_on zero result input = some (result, input)
read_on (suc digits_to_go) result [] = none
read_on (suc digits_to_go) result (c ∷ input) =
    read_on digits_to_go (result * 64 % 2 ^ 32 + bit_and c 0x3f) input

-- `handleMultiByteChar`, which the source calls on a byte with its top two bits set: the character, and
-- the bytes behind it; `none` is the exception.
unfoldable pub handle_multi_byte_char : ℕ → Text → Option (ℕ × Text)
unfolding find_mask read_on
handle_multi_byte_char c input =
    let (digits_to_go, mask) = find_mask 6 c 6 0xFC in
    read_on (digits_to_go - 1) (bit_and c (255 - mask)) input

-- The `switch`, for a byte that starts no longer sequence.
unfoldable quote : ℕ → Text
quote c =
    if c == 0x08
    then b'\\' ∷ b'b' ∷ []
    else if c == 0x09
    then b'\\' ∷ b't' ∷ []
    else if c == 0x0A
    then b'\\' ∷ b'n' ∷ []
    else if c == 0x0C
    then b'\\' ∷ b'f' ∷ []
    else if c == 0x0D
    then b'\\' ∷ b'r' ∷ []
    else if c == 0x22
    then b'\\' ∷ b'"' ∷ []
    else if c == 0x5C
    then b'\\' ∷ b'\\' ∷ []
    else if c == 0x2F
    then b'\\' ∷ b'/' ∷ []
    else c ∷ []

-- The loop of `utf82json`, on fuel: each round takes a byte at least. The outer `none` is an exception.
unfoldable convert : ℕ → Text → Option Text
unfolding hex handle_multi_byte_char quote
convert zero input = some []
convert (suc fuel) [] = some []
convert (suc fuel) (c ∷ input) = elim (bit_and c 0xC0 == 0xC0) [
  | true ↦ handle_multi_byte_char c input >>= λ r.
      convert fuel r.1 >>= λ out. some (b'\\' ∷ b'u' ∷ hex r.0 ++ out)
  | false ↦ convert fuel input >>= λ out. some (quote c ++ out)
]

unfoldable pub utf82json : Text → Option Text
unfolding convert
utf82json utf8 = convert (length utf8) utf8
