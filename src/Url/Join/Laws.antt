-- ===== src/Url/Join/Laws.antt =====
-- What `joinSlashes` of src/url.cpp computes, and where it is undefined.
use cdnalizerd.Base.{
  ℕ, ◌≡◌, ◌≢◌, refl, ap, sym, ◌∙◌, false, List, [], ◌∷◌, ◌++◌, none, some, arith, append-nil,
  append_assoc, ◌==◌, Option-cases, inl, inr,
}
use cdnalizerd.Base.Text.{Text}
use cdnalizerd.Utils.{slash, back, front, is_slash}
use cdnalizerd.Url.Join.{drop_back_slash, trim, append_part, append_parts, erase_last, join_slashes}

-- A part, with at most one slash put before it and one after it.
pub data Decorated (s : Text) : Text → Type 0 where
  bare : Decorated s s
  before : Decorated s (slash ∷ s)
  after : Decorated s (s ++ slash ∷ [])
  both : Decorated s (slash ∷ s ++ slash ∷ [])

drop_back_slash-bare : (s : Text) → is_slash (back s) ≡ false → drop_back_slash s ≡ s
unfolding drop_back_slash back
drop_back_slash-bare [] h = refl
drop_back_slash-bare (x ∷ []) h = ground arith
drop_back_slash-bare (x ∷ y ∷ r) h = ap (◌∷◌ x) (drop_back_slash-bare (y ∷ r) h)

drop_back_slash-snoc : (s : Text) → drop_back_slash (s ++ slash ∷ []) ≡ s
unfolding drop_back_slash
drop_back_slash-snoc [] = refl
drop_back_slash-snoc (x ∷ []) = refl
drop_back_slash-snoc (x ∷ y ∷ r) = ap (◌∷◌ x) (drop_back_slash-snoc (y ∷ r))

trim_plain :
    (x : ℕ) (r : Text) → (x == slash) ≡ false → trim (x ∷ r) ≡ some (drop_back_slash (x ∷ r))
unfolding trim drop_back_slash
trim_plain x [] h = ground arith
trim_plain x (y ∷ r) h = ground arith

trim_cons : (x : ℕ) (r : Text) → trim (slash ∷ x ∷ r) ≡ some (drop_back_slash (x ∷ r))
unfolding trim
trim_cons x r = refl

append_part_of_trim :
    (result : Text) (x : ℕ) (r t : Text)
    → trim (x ∷ r) ≡ some t
    → append_part result (x ∷ r) ≡ some (result ++ t ++ slash ∷ [])
unfolding append_part
append_part_of_trim result x r t e = rw (e, append_part) refl

-- A part that is not empty, and neither begins nor ends with a slash.
pub record IsBare (b : Text) : Type 0 where
  pub filled : b ≢ []
  pub begins : is_slash (front b) ≡ false
  pub ends : is_slash (back b) ≡ false

-- Whatever slashes a bare part carries, it contributes itself.
trim-Decorated :
    (x : ℕ) (r t : Text)
    → (x == slash) ≡ false
    → is_slash (back (x ∷ r)) ≡ false
    → Decorated (x ∷ r) t
    → (result : Text) → append_part result t ≡ some (result ++ (x ∷ r) ++ slash ∷ [])
trim-Decorated x r t h k bare result =
    append_part_of_trim result x r (x ∷ r)
      (trim_plain x r h ∙ ap some (drop_back_slash-bare (x ∷ r) k))
trim-Decorated x r t h k before result =
    append_part_of_trim result slash (x ∷ r) (x ∷ r)
      (trim_cons x r ∙ ap some (drop_back_slash-bare (x ∷ r) k))
trim-Decorated x r t h k after result =
    append_part_of_trim result x (r ++ slash ∷ []) (x ∷ r)
      (trim_plain x (r ++ slash ∷ []) h ∙ ap some (drop_back_slash-snoc (x ∷ r)))
trim-Decorated x r t h k both result =
    append_part_of_trim result slash (x ∷ r ++ slash ∷ []) (x ∷ r)
      (trim_cons x (r ++ slash ∷ []) ∙ ap some (drop_back_slash-snoc (x ∷ r)))

append_part-Decorated :
    (b t result : Text)
    → IsBare b
    → Decorated b t
    → append_part result t ≡ some (result ++ b ++ slash ∷ [])
unfolding front
append_part-Decorated [] t result h d = absurd (h.filled refl)
append_part-Decorated (x ∷ r) t result h d = trim-Decorated x r t h.begins h.ends d result

-- Strings, and the bare parts that they stand for; empty strings stand for nothing.
pub data Given : List Text → List Text → Type 0 where
  done : Given [] []
  skip : {bs ss : List Text} → Given bs ss → Given bs ([] ∷ ss)
  part :
      {b s : Text} {bs ss : List Text}
      → IsBare b
      → Decorated b s
      → Given bs ss
      → Given (b ∷ bs) (s ∷ ss)

-- The parts with one slash between each two.
abbrev pub joined : List Text → Text
joined [] = []
joined (b ∷ []) = b
joined (b ∷ c ∷ bs) = b ++ slash ∷ joined (c ∷ bs)

closed : List Text → Text
closed [] = []
closed (b ∷ bs) = b ++ slash ∷ closed bs

closed_lem : (b : Text) (bs : List Text) → closed (b ∷ bs) ≡ joined (b ∷ bs) ++ slash ∷ []
unfolding closed
closed_lem b [] = refl
closed_lem b (c ∷ bs) =
    ap (λ t. b ++ slash ∷ t) (closed_lem c bs)
    ∙ sym (append_assoc b (slash ∷ joined (c ∷ bs)) (slash ∷ []))

append_parts-Given :
    {bs ss : List Text} (result : Text)
    → Given bs ss
    → append_parts result ss ≡ some (result ++ closed bs)
unfolding append_parts closed
append_parts-Given result done = rw (append-nil result) refl
append_parts-Given result (skip g) = append_parts-Given result g
append_parts-Given result (part {b} {s} {bs} {ss} h d g) =
    rw (append_part-Decorated b s result h d, append_parts)
      (append_parts-Given (result ++ b ++ slash ∷ []) g
        ∙ ap some (
            append_assoc (result ++ b) (slash ∷ []) (closed bs)
            ∙ append_assoc result b (slash ∷ closed bs)))

erase_last-snoc : (t : Text) (c : ℕ) → erase_last (t ++ c ∷ []) ≡ some t
unfolding erase_last
erase_last-snoc [] c = refl
erase_last-snoc (x ∷ []) c = refl
erase_last-snoc (x ∷ y ∷ t) c = rw (erase_last-snoc (y ∷ t) c, erase_last) refl

-- Parts that neither begin nor end with a slash are joined with exactly one slash between each two,
-- and none at the ends, whether or not a part was given with a slash before it, after it or both,
-- and whatever empty strings stand between them.
pub join_slashes-Given :
    {b : Text} {bs ss : List Text} → Given (b ∷ bs) ss → join_slashes ss ≡ some (joined (b ∷ bs))
unfolding join_slashes
join_slashes-Given {b} {bs} {ss} g =
    rw (join_slashes, append_parts-Given [] g, closed_lem b bs)
      (erase_last-snoc (joined (b ∷ bs)) slash)

append_parts_single_slash :
    (result : Text) (ss ts : List Text) → append_parts result (ss ++ (slash ∷ []) ∷ ts) ≡ none
unfolding append_parts
append_parts_single_slash result [] ts = refl
append_parts_single_slash result (s ∷ ss) ts = elim (Option-cases (append_part result s)) [
  | inl e ↦ rw (e, append_parts) refl
  | inr (r, e) ↦ rw (e, append_parts) (append_parts_single_slash r ss ts)
]

-- A part that is a single slash makes the whole join undefined behaviour, wherever it stands.
pub join_slashes_single_slash : (ss ts : List Text) → join_slashes (ss ++ (slash ∷ []) ∷ ts) ≡ none
unfolding join_slashes
join_slashes_single_slash ss ts = rw (join_slashes, append_parts_single_slash [] ss ts) refl
