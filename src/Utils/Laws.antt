-- ===== src/Utils/Laws.antt =====
-- What the path helpers of src/utils.cpp and src/utils.hpp compute.
use cdnalizerd.Base.{
  ℕ, ◌≡◌, ◌≢◌, refl, true, false, [], ◌∷◌, ◌++◌, some, arith, append_assoc, length, drop,
  length-append, drop-append_self, ◌==◌,
}
use cdnalizerd.Base.Text.{Text, is_prefix, is_prefix-append}
use cdnalizerd.Utils.{slash, back, is_slash, join_paths, join_two, un_join_paths}

back-snoc : (a : Text) (c : ℕ) → back (a ++ c ∷ []) ≡ some c
unfolding back
back-snoc [] c = refl
back-snoc (x ∷ []) c = refl
back-snoc (x ∷ y ∷ a) c = back-snoc (y ∷ a) c

is_prefix→append :
    (base extra : Text) → is_prefix base extra ≡ true → base ++ drop (length base) extra ≡ extra
unfolding is_prefix
is_prefix→append [] extra h = refl
is_prefix→append (x ∷ base) [] h = cc
is_prefix→append (x ∷ base) (y ∷ extra) h = ground (arith, is_prefix→append base extra)

-- `unJoinPaths` takes a prefix off: `base + x` without `base` is `x`, for all texts, and whenever
-- the result is not empty, the text is `base` followed by the result.
un_join_paths_lem :
    (base extra : Text)
    → (un_join_paths base (base ++ extra) ≡ extra)
      × (un_join_paths base extra ≢ [] → base ++ un_join_paths base extra ≡ extra)
unfolding un_join_paths
un_join_paths_lem base extra = (
  ground
      (arith, is_prefix-append base extra, length-append base extra, drop-append_self base extra),
  λ h. ground (arith, is_prefix→append base extra),
)

-- A path without a slash at the end and a part without a slash at the front are joined by one
-- slash, however many of the two (none, one or both) are given with a slash between them.
join_paths_one_slash :
    (b e : ℕ) (base extra : Text)
    → is_slash (back (b ∷ base)) ≡ false
    → (e == slash) ≡ false
    → let joined : Text = (b ∷ base) ++ slash ∷ e ∷ extra in
      (join_paths (b ∷ base) (e ∷ extra) ≡ some joined)
      × (join_paths ((b ∷ base) ++ slash ∷ []) (e ∷ extra) ≡ some joined)
      × (join_paths (b ∷ base) (slash ∷ e ∷ extra) ≡ some joined)
      × (join_paths ((b ∷ base) ++ slash ∷ []) (slash ∷ e ∷ extra) ≡ some joined)
unfolding join_paths
join_paths_one_slash b e base extra hb he = (
  ground (arith, append_assoc (b ∷ base) (slash ∷ []) (e ∷ extra)),
  ground (arith, append_assoc (b ∷ base) (slash ∷ []) (e ∷ extra), back-snoc (b ∷ base) slash),
  ground (arith, append_assoc (b ∷ base) (slash ∷ []) (e ∷ extra)),
  ground (arith, append_assoc (b ∷ base) (slash ∷ []) (e ∷ extra), back-snoc (b ∷ base) slash),
)

-- The template does not: two slashes that meet are both kept, for every pair of paths.
join_two_double :
    (base extra : Text)
    → join_two (base ++ slash ∷ []) (slash ∷ extra) ≡ base ++ slash ∷ slash ∷ extra
unfolding join_two
join_two_double [] extra = refl
join_two_double (b ∷ base) extra =
    ground (arith, append_assoc (b ∷ base) (slash ∷ []) (slash ∷ extra), back-snoc (b ∷ base) slash)
