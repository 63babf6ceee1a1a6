-- ===== src/Url/Join.antt =====
-- `joinSlashes` of src/url.cpp.
pub mod Laws
use cdnalizerd.Base.{ℕ, List, [], ◌∷◌, ◌++◌, Option, none, some, Bool, ◌==◌, if◌then◌else◌}
use cdnalizerd.Base.Text.{Text}
use cdnalizerd.Utils.{slash}

-- `if (s.back() == '/') --end`
unfoldable pub drop_back_slash : Text → Text
drop_back_slash [] = []
drop_back_slash (x ∷ []) = if x == slash then [] else x ∷ []
drop_back_slash (x ∷ y ∷ r) = x ∷ drop_back_slash (y ∷ r)

-- The range that one non-empty string contributes. `none`: for the string "/" the range ends before
-- it begins, which is undefined behaviour of `std::copy`.
unfoldable pub trim : Text → Option Text
unfolding drop_back_slash
trim [] = some []
trim (x ∷ []) = if x == slash then none else some (x ∷ [])
trim (x ∷ y ∷ r) =
    if x == slash then some (drop_back_slash (y ∷ r)) else some (drop_back_slash (x ∷ y ∷ r))

-- One round of the loop: an empty string is skipped.
unfoldable pub append_part : Text → Text → Option Text
unfolding trim
append_part result [] = some result
append_part result (c ∷ s) = elim (trim (c ∷ s)) [
  | none ↦ none
  | some t ↦ some (result ++ t ++ slash ∷ [])
]

unfoldable pub append_parts : Text → List Text → Option Text
unfolding append_part
append_parts result [] = some result
append_parts result (s ∷ strings) = elim (append_part result s) [
  | none ↦ none
  | some r ↦ append_parts r strings
]

-- `result.erase(result.end() - 1)`, undefined for an empty result.
unfoldable pub erase_last : Text → Option Text
erase_last [] = none
erase_last (x ∷ []) = some []
erase_last (x ∷ y ∷ r) = elim (erase_last (y ∷ r)) [ none ↦ none | some t ↦ some (x ∷ t) ]

unfoldable pub join_slashes : List Text → Option Text
unfolding append_parts erase_last
join_slashes strings = elim (append_parts [] strings) [ none ↦ none | some r ↦ erase_last r ]
