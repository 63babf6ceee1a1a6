-- ===== src/Tests/Escapes.antt =====
-- experiments/utf8.cpp at concrete texts.
use cdnalizerd.Base.{◌≤◌, ◌<◌, ◌≡◌, ◌↔◌, refl, [], ◌∷◌, ◌++◌, none, some, arith, length, map, flat}
use cdnalizerd.Base.Text.{codes}
use cdnalizerd.Utf8.{hex, utf82json}
use cdnalizerd.Utf8.Digits.{value, value-hex}
use cdnalizerd.Utf8.Multibyte.{encode}
use cdnalizerd.Utf8.Sentences.{escape, utf82json_characters, utf82json_cut, length-escape}

-- "a/€": the slash is escaped, and the euro sign is written as its four digits.
euro_run : utf82json (b'a' ∷ b'/' ∷ 0xE2 ∷ 0x82 ∷ 0xAC ∷ []) ≡ some (codes "a\\/\\u20AC")
unfolding utf82json
euro_run = refl

-- An accented letter gets two digits, and the overlong form of 0 gets none.
accent_run : utf82json (0xC3 ∷ 0xA9 ∷ 0xC0 ∷ 0x80 ∷ []) ≡ some (codes "\\uE9\\u")
unfolding utf82json
accent_run = refl

-- The second byte of a character is not tested.
unchecked_run : utf82json (0xC3 ∷ b'"' ∷ []) ≡ some (codes "\\uE2")
unfolding utf82json
unchecked_run = refl

value-hex_example : value 0 (hex 0x1F600) ≡ 0x1F600
value-hex_example = value-hex 0x1F600 (omega arith)

utf82json_characters_example :
    utf82json (flat (map encode (b'a' ∷ 0xE9 ∷ 0x1F600 ∷ 34 ∷ [])))
    ≡ some (flat (map escape (b'a' ∷ 0xE9 ∷ 0x1F600 ∷ 34 ∷ [])))
utf82json_characters_example =
    utf82json_characters (b'a' ∷ 0xE9 ∷ 0x1F600 ∷ 34 ∷ [])
      (omega arith, (omega arith, (omega arith, (omega arith, tt))))

utf82json_cut_example : utf82json (flat (map encode (b'a' ∷ 0xE9 ∷ [])) ++ 0xE2 ∷ 0x82 ∷ []) ≡ none
unfolding encode
utf82json_cut_example =
    utf82json_cut (b'a' ∷ 0xE9 ∷ []) 0x20AC 0xE2 0xAC (0x82 ∷ []) []
      (omega arith, (omega arith, tt)) (omega arith) euro
  where
    euro : encode 0x20AC ≡ 0xE2 ∷ 0x82 ∷ 0xAC ∷ []
    euro = refl

length-escape_example : (length (escape 0xE9) ≡ 6) ↔ ((0x1000 ≤ 0xE9) × (0xE9 < 0x10000))
length-escape_example = length-escape 0xE9 (omega arith) (omega arith)
