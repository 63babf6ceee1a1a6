-- ===== src/Tests/Filters.antt =====
-- src/testExcludeFilter.cpp with an engine that finds what the program expects.
use cdnalizerd.Base.{◌≡◌, refl, Bool, false, ◌||◌, List, [], ◌∷◌, none, some}
use cdnalizerd.Base.Text.{Text, codes, text_eq}
use cdnalizerd.Base.Maps.{find}
use cdnalizerd.ExcludeFilter.{regex_to_expected, exclude_filter}

abbrev holds : List Text → Text → Bool
holds [] line = false
holds (t ∷ ts) line = text_eq t line || holds ts line

abbrev right_engine : Text → Text → Bool
right_engine line regex = elim (find text_eq regex_to_expected regex) [
  | none ↦ false
  | some expected ↦ holds expected line
]

alone_run : exclude_filter some right_engine (codes "^fun" ∷ []) ≡ some 0
unfolding exclude_filter find text_eq
alone_run = refl

-- Both pass alone, and the second is refused behind the first.
together_run : exclude_filter some right_engine (codes "abc" ∷ codes "^fun" ∷ []) ≡ some 1
unfolding exclude_filter find text_eq
together_run = refl

unknown_run : exclude_filter some right_engine (codes "x" ∷ []) ≡ none
unfolding exclude_filter find text_eq
unknown_run = refl
