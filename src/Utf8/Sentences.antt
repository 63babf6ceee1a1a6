-- ===== src/Utf8/Sentences.antt =====
-- `utf82json` of experiments/utf8.cpp on whole texts.
use Prim.Native.Nat.{bit_and}
use cdnalizerd.Base.{
  ℕ, zero, suc, ◌+◌, ◌≤◌, ◌<◌, ◌^◌, ◌≡◌, ◌↔◌, refl, ap, sym, ◌∙◌, Bool, true, false, List, [], ◌∷◌,
  ◌++◌, append_assoc, append-nil, Option, none, some, arith, ltb, length, length-append, ◌==◌,
  if◌then◌else◌, ◌>>=◌, holds_below, holds_below-at, map, flat, Each,
}
use mathlib.Core.List.{head-eq_of_cons-eq, tail-eq_of_cons-eq}
use native.Mathlib.Decide.{dec_lt}
use cdnalizerd.Base.Text.{Text}
use cdnalizerd.Utf8.{hex, quote, handle_multi_byte_char, convert, utf82json}
use cdnalizerd.Utf8.Digits.{length-hex}
use cdnalizerd.Utf8.Multibyte.{encode, encode-IsRead}

-- What a character becomes.
abbrev pub escape : ℕ → Text
escape n = if ltb n 0x80 then quote n else b'\\' ∷ b'u' ∷ hex n

low_byte : (n : ℕ) → n < 0x80 → (bit_and n 0xC0 == 0xC0) ≡ false
unfolding holds_below
low_byte n h =
    no (holds_below-at 0x80 (λ c. if bit_and c 0xC0 == 0xC0 then false else true) n refl h)
  where
    no : {b : Bool} → (if b then false else true) ≡ true → b ≡ false
    no {b = true} e = cc
    no {b = false} e = refl

convert_quoted :
    (fuel c : ℕ) (input : Text)
    → (bit_and c 0xC0 == 0xC0) ≡ false
    → convert (suc fuel) (c ∷ input) ≡ (convert fuel input >>= λ out. some (quote c ++ out))
unfolding convert
convert_quoted fuel c input h = rw (convert, h) refl

convert_escaped :
    (fuel c n : ℕ) (input rest : Text)
    → bit_and c 0xC0 ≡ 0xC0
    → handle_multi_byte_char c input ≡ some (n, rest)
    → convert (suc fuel) (c ∷ input)
      ≡ (convert fuel rest >>= λ out. some (b'\\' ∷ b'u' ∷ hex n ++ out))
unfolding convert
convert_escaped fuel c n input rest h r = rw (convert, h, r) refl

convert_truncated :
    (fuel c : ℕ) (input : Text)
    → bit_and c 0xC0 ≡ 0xC0
    → handle_multi_byte_char c input ≡ none
    → convert (suc fuel) (c ∷ input) ≡ none
unfolding convert
convert_truncated fuel c input h r = rw (convert, h, r) refl

encode_low : (n : ℕ) → n < 0x80 → encode n ≡ n ∷ []
unfolding encode
encode_low n low = ground arith

escape_low : (n : ℕ) → n < 0x80 → escape n ≡ quote n
escape_low n low = ground arith

escape_high : (n : ℕ) → 0x80 ≤ n → escape n ≡ b'\\' ∷ b'u' ∷ hex n
escape_high n high = ground arith

convert_character :
    (fuel n : ℕ) (rest : Text)
    → n < 2 ^ 31
    → convert (suc fuel) (encode n ++ rest) ≡ (convert fuel rest >>= λ out. some (escape n ++ out))
convert_character fuel n rest h = elim (dec_lt n 0x80) [
  | yes low ↦
      ap (λ t. convert (suc fuel) (t ++ rest)) (encode_low n low)
      ∙ convert_quoted fuel n rest (low_byte n low)
      ∙ ap (λ e. convert fuel rest >>= λ out. some (e ++ out)) (sym (escape_low n low))
  | no high ↦
      let r = encode-IsRead n (omega arith) h in
      ap (λ t. convert (suc fuel) (t ++ rest)) r.encoding
      ∙ convert_escaped fuel r.lead n (r.more ++ rest) rest r.top (r.read rest)
      ∙ ap (λ e. convert fuel rest >>= λ out. some (e ++ out)) (sym (escape_high n (omega arith)))
]

some_bytes : (n : ℕ) → n < 2 ^ 31 → 0 < length (encode n)
some_bytes n h = elim (dec_lt n 0x80) [
  | yes low ↦ omega (arith, ap length (encode_low n low))
  | no high ↦ omega (arith, ap length (encode-IsRead n (omega arith) h).encoding)
]

then_map :
    (o : Option Text) (before after : Text)
    → ((o >>= λ out. some (after ++ out)) >>= λ out. some (before ++ out))
      ≡ (o >>= λ out. some ((before ++ after) ++ out))
then_map none before after = refl
then_map (some out) before after = ap some (sym (append_assoc before after out))

first_character :
    (fuel n : ℕ) (tail : Text) {o : Option Text}
    → n < 2 ^ 31
    → length (encode n) + length tail ≤ fuel
    → ((f : ℕ) → length tail ≤ f → convert f tail ≡ o)
    → convert fuel (encode n ++ tail) ≡ (o >>= λ out. some (escape n ++ out))
first_character zero n tail small h later = absurd (omega (arith, some_bytes n small))
first_character (suc fuel) n tail small h later =
    convert_character fuel n tail small
    ∙ ap (λ p. p >>= λ out. some (escape n ++ out)) (later fuel (omega (arith, some_bytes n small)))

-- Whole characters in front of a text: with enough fuel, they are converted, and then the text is.
convert_sentence :
    (ns : List ℕ) (rest : Text) (o : Option Text)
    → Each (λ n. n < 2 ^ 31) ns
    → ((fuel : ℕ) → length rest ≤ fuel → convert fuel rest ≡ o)
    → (fuel : ℕ) → length (flat (map encode ns) ++ rest) ≤ fuel
    → convert fuel (flat (map encode ns) ++ rest)
      ≡ (o >>= λ out. some (flat (map escape ns) ++ out))
convert_sentence [] rest o each after fuel h = after fuel h ∙ back o
  where
    back : (o : Option Text) → o ≡ (o >>= λ out. some out)
    back none = refl
    back (some out) = refl
convert_sentence (n ∷ ns) rest o (small, each) after fuel h =
    let tail = flat (map encode ns) ++ rest in
    let assoc = append_assoc (encode n) (flat (map encode ns)) rest in
    let total = ap length assoc ∙ length-append (encode n) tail in
    let front = escape n in
    ap (convert fuel) assoc
    ∙ first_character fuel n tail small (omega (arith, total))
        (λ f l. convert_sentence ns rest o each after f l)
    ∙ then_map o front (flat (map escape ns))

-- The start of a character that does not end.
cut_off :
    (n c d : ℕ) (cut missing : Text)
    → n < 2 ^ 31
    → encode n ≡ (c ∷ cut) ++ d ∷ missing
    → (fuel : ℕ) → length (c ∷ cut) ≤ fuel
    → convert fuel (c ∷ cut) ≡ none
cut_off n c d cut missing small e zero h = absurd (omega arith)
cut_off n c d cut missing small e (suc fuel) h = elim (dec_lt n 0x80) [
  | yes low ↦
      absurd
        (omega (arith, ap length (sym (encode_low n low) ∙ e), length-append cut (d ∷ missing)))
  | no high ↦
      let r = encode-IsRead n (omega arith) small in
      let same = head-eq_of_cons-eq (sym r.encoding ∙ e) in
      let others = tail-eq_of_cons-eq (sym r.encoding ∙ e) in
      ap (λ l. convert (suc fuel) (l ∷ cut)) (sym same)
      ∙ convert_truncated fuel r.lead cut r.top
          (r.truncated cut (omega (arith, ap length others, length-append cut (d ∷ missing))))
]

-- A text that is made of whole characters, of up to 31 bits each, is converted character by character: a
-- byte below 128 to itself or to its escape of two characters, and any other character to `\u` and its
-- digits.
pub utf82json_characters :
    (ns : List ℕ)
    → Each (λ n. n < 2 ^ 31) ns
    → utf82json (flat (map encode ns)) ≡ some (flat (map escape ns))
unfolding utf82json convert
utf82json_characters ns each =
    let whole = append-nil (flat (map encode ns)) in
    ap (λ t. convert (length t) t) (sym whole)
    ∙ convert_sentence ns [] (some []) each nothing (length (flat (map encode ns) ++ []))
        (omega arith)
    ∙ ap some (append-nil (flat (map escape ns)))
  where
    nothing : (fuel : ℕ) → 0 ≤ fuel → convert fuel [] ≡ some []
    nothing zero h = refl
    nothing (suc fuel) h = refl

-- A text that ends within a character, behind any number of whole ones, is answered with the exception.
pub utf82json_cut :
    (ns : List ℕ) (n c d : ℕ) (cut missing : Text)
    → Each (λ m. m < 2 ^ 31) ns
    → n < 2 ^ 31
    → encode n ≡ (c ∷ cut) ++ d ∷ missing
    → utf82json (flat (map encode ns) ++ c ∷ cut) ≡ none
unfolding utf82json
utf82json_cut ns n c d cut missing each small e =
    convert_sentence ns (c ∷ cut) none each (cut_off n c d cut missing small e)
      (length (flat (map encode ns) ++ c ∷ cut)) (omega arith)

-- The escape of a character of at least 128 has the six bytes that JSON asks for exactly if the
-- character has four hexadecimal digits.
pub length-escape :
    (n : ℕ) → 0x80 ≤ n → n < 2 ^ 31 → (length (escape n) ≡ 6) ↔ ((0x1000 ≤ n) × (n < 0x10000))
length-escape n high small =
    let (f, g) = length-hex 4 n (omega arith) (omega arith) in
    let (f', g') = length-hex 3 n (omega arith) (omega arith) in
    let l = ap length (escape_high n high) in
    (
      λ e. (
        elim (dec_lt n 0x1000) [ yes b ↦ absurd (omega (arith, g' b, l)) | no b ↦ omega arith ],
        f (omega (arith, l)),
      ),
      λ (a, b). elim (dec_lt (length (hex n)) 4) [
        | yes c ↦ absurd (omega (arith, f' (omega arith)))
        | no c ↦ omega (arith, l, g b)
      ],
    )
