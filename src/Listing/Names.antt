-- ===== src/Listing/Names.antt =====
-- Names on the lines of a page of src/processes/list.cpp, and the marker that the next page begins behind.
use cdnalizerd.Base.{
  ℕ, zero, suc, ◌<◌, ◌≡◌, ◌≢◌, inl, inr, refl, sym, ap, ◌∙◌, true, false, List, [], ◌∷◌, ◌++◌,
  arith, Bool, leb, ◌&&◌, ◌||◌, ◌==◌, if◌then◌else◌, Bool-cases, length, take, drop, Each, Each-imp,
}
use cdnalizerd.Base.Text.{Text, text_lt, text_lt_trans, text_lt_irrefl, is_empty}
use cdnalizerd.Listing.{split_lines, keep_filled, next_marker, newline}

-- A byte that stands for itself in the query of a URL: a letter, a digit, a slash, or one of the four
-- other characters that need no percent sign.
unfoldable pub is_plain : ℕ → Bool
is_plain c =
    (leb b'a' c && leb c b'z')
    || ((leb b'A' c && leb c b'Z')
        || ((leb b'0' c && leb c b'9')
            || (c == b'/' || (c == b'-' || (c == b'.' || (c == b'_' || c == b'~'))))))

abbrev pub IsPlain : Text → Type 0
IsPlain t = Each (λ c. is_plain c ≡ true) t

plain_not_newline : (c : ℕ) → is_plain c ≡ true → (c == newline) ≡ false
unfolding is_plain
plain_not_newline c h = ground arith

-- A name that can stand in the query of a URL as it is.
pub record IsName (t : Text) : Type 0 where
  pub filled : is_empty t ≡ false
  pub plain : IsPlain t

pub next_marker-IsPlain :
    (marker : Text) (ts : List Text)
    → IsPlain marker
    → Each IsName ts
    → IsPlain (next_marker marker ts)
unfolding next_marker
next_marker-IsPlain marker [] p h = p
next_marker-IsPlain marker (t ∷ ts) p h = next_marker-IsPlain t ts h.0.plain h.1

-- Strictly ascending, as the server lists names.
pub data IsAscending : List Text → Type 0 where
  none_left : IsAscending []
  last_one : {t : Text} → IsAscending (t ∷ [])
  before :
      {t u : Text} {ts : List Text}
      → text_lt t u ≡ true
      → IsAscending (u ∷ ts)
      → IsAscending (t ∷ u ∷ ts)

-- One line for each name.
abbrev pub body_of : List Text → Text
body_of [] = []
body_of (t ∷ ts) = t ++ newline ∷ body_of ts

-- The names behind a marker.
abbrev pub behind : Text → List Text → List Text
behind marker [] = []
behind marker (t ∷ ts) = if text_lt marker t then t ∷ ts else behind marker ts

split_lines-line :
    (t rest : Text)
    → Each (λ c. (c == newline) ≡ false) t
    → split_lines (t ++ newline ∷ rest) ≡ t ∷ split_lines rest
unfolding split_lines
split_lines-line [] rest h = refl
split_lines-line (c ∷ t) rest h = rw (split_lines-line t rest h.1, split_lines, h.0) refl

pub split_lines-body_of :
    (ts : List Text) → Each IsName ts → keep_filled (split_lines (body_of ts)) ≡ ts
unfolding keep_filled split_lines
split_lines-body_of [] h = refl
split_lines-body_of (t ∷ ts) h =
    rw
      (
        split_lines-line t (body_of ts) (Each-imp _ _ t plain_not_newline h.0.plain),
        keep_filled,
        h.0.filled,
      )
      (ap (◌∷◌ t) (split_lines-body_of ts h.1))

pub true_not_false : true ≢ false
true_not_false h = cc

-- All of the names are behind no marker, and behind a name stand those after it.
text_lt-nil : (t : Text) → is_empty t ≡ false → text_lt [] t ≡ true
unfolding text_lt
text_lt-nil [] h = cc
text_lt-nil (c ∷ t) h = refl

behind-start : (ts : List Text) → Each IsName ts → behind [] ts ≡ ts
behind-start [] h = refl
behind-start (t ∷ ts) h = rw (text_lt-nil t h.0.filled) refl

pub Each-front : (Q : Text → Type 0) (l m : List Text) → Each Q (l ++ m) → Each Q l
Each-front Q [] m h = tt
Each-front Q (a ∷ l) m h = (h.0, Each-front Q l m h.1)

pub Each-back : (Q : Text → Type 0) (l m : List Text) → Each Q (l ++ m) → Each Q m
Each-back Q [] m h = h
Each-back Q (a ∷ l) m h = Each-back Q l m h.1

pub IsAscending-tail : {t : Text} {ts : List Text} → IsAscending (t ∷ ts) → IsAscending ts
IsAscending-tail last_one = none_left
IsAscending-tail (before l a) = a

-- The first name is before all the others.
below_all : (t : Text) (ts : List Text) → IsAscending (t ∷ ts) → Each (λ u. text_lt t u ≡ true) ts
below_all t [] a = tt
below_all t (u ∷ ts) (before l a) =
    (l, Each-imp _ _ ts (λ v k. text_lt_trans t u v l k) (below_all u ts a))

not_before : (t u : Text) → text_lt t u ≡ true → text_lt u t ≡ false
not_before t u l = elim (Bool-cases (text_lt u t)) [
  | inr n ↦ n
  | inl m ↦ absurd (true_not_false (sym (text_lt_trans t u t l m) ∙ text_lt_irrefl t))
]

at_rest : (t : Text) (rest : List Text) → IsAscending (t ∷ rest) → behind t rest ≡ rest
at_rest t [] a = refl
at_rest t (u ∷ rest) (before l a) = rw l refl

marker_above :
    (t u : Text) (ts : List Text)
    → text_lt t u ≡ true
    → Each (λ v. text_lt t v ≡ true) ts
    → text_lt t (next_marker u ts) ≡ true
unfolding next_marker
marker_above t u [] l h = l
marker_above t u (v ∷ ts) l h = marker_above t v ts h.0 h.1

-- Behind the last of some names that ascend stand those that follow them.
behind-last :
    (t : Text) (ts rest : List Text)
    → IsAscending (t ∷ ts ++ rest)
    → behind (next_marker t ts) (t ∷ ts ++ rest) ≡ rest
unfolding next_marker
behind-last t [] rest a = rw (text_lt_irrefl t) (at_rest t rest a)
behind-last t (u ∷ ts) rest a =
    let above =
      Each-front (λ v. text_lt t v ≡ true) (u ∷ ts) rest (below_all t (u ∷ ts ++ rest) a) in
    rw (not_before t (next_marker u ts) (marker_above t u ts above.0 above.1))
      (behind-last u ts rest (IsAscending-tail a))

pub behind-marker :
    (pre rest : List Text)
    → Each IsName rest
    → IsAscending (pre ++ rest)
    → behind (next_marker [] pre) (pre ++ rest) ≡ rest
unfolding next_marker
behind-marker [] rest h a = behind-start rest h
behind-marker (t ∷ pre) rest h a = behind-last t pre rest a

pub next_marker-append :
    (marker : Text) (pre page : List Text)
    → next_marker marker (pre ++ page) ≡ next_marker (next_marker marker pre) page
unfolding next_marker
next_marker-append marker [] page = refl
next_marker-append marker (t ∷ pre) page = next_marker-append t pre page

pub take-append-drop : (k : ℕ) (ts : List Text) → take k ts ++ drop k ts ≡ ts
take-append-drop zero ts = refl
take-append-drop (suc k) [] = refl
take-append-drop (suc k) (t ∷ ts) = ap (◌∷◌ t) (take-append-drop k ts)

pub take_short :
    (k : ℕ) (ts : List Text) → length (take k ts) ≢ k → (take k ts ≡ ts) × (length ts < k)
take_short zero ts h = absurd (h refl)
take_short (suc k) [] h = (refl, omega arith)
take_short (suc k) (t ∷ ts) h =
    let (e, l) = take_short k ts (λ p. h (ap suc p)) in (ap (◌∷◌ t) e, omega (arith, l))
