-- ===== src/Sync/Merge/Paths.antt =====
-- What the disk and the server say when nothing fails, and how paths are compared with one another.
use cdnalizerd.Base.{
  ℕ, ◌≡◌, ◌≢◌, inl, inr, refl, sym, ap, ◌∙◌, Bool, true, false, List, [], ◌∷◌, ◌++◌, Option, none,
  some, if◌then◌else◌, ◌>>=◌, Bool-cases, Each,
}
use cdnalizerd.Base.Text.{
  Text, text_eq, text_eq→eq, eq→text_eq, text_lt, text_lt_irrefl, text_lt-total,
}
use cdnalizerd.Utils.{slash}
use cdnalizerd.Sync.{Disk}

-- What the disk and the server say, when nothing fails.
pub record View : Type 0 where
  pub is_dir : Text → Bool
  pub tail : Text → Text
  pub size : Text → ℕ
  pub time : Text → ℕ
  pub remote_time : Text → ℕ

abbrev pub here : View → Text → Text
here v path = slash ∷ v.tail path

pub record IsView {Regex : Type 0} (disk : Disk Regex) (local_dir : Text) (v : View) : Type 0 where
  pub is_directory : (p : Text) → disk.is_directory p ≡ some (v.is_dir p)
  pub relative : (p : Text) → disk.relative p local_dir ≡ some (v.tail p)
  pub file_size : (p : Text) → disk.file_size p ≡ some (v.size p)
  pub last_write_time : (p : Text) → disk.last_write_time p ≡ some (v.time p)
  pub remote_time : (t : Text) → disk.remote_time t ≡ some (v.remote_time t)

abbrev pub filter_paths : (Text → Bool) → List Text → List Text
filter_paths keep [] = []
filter_paths keep (p ∷ ps) = if keep p then p ∷ filter_paths keep ps else filter_paths keep ps

pub filter_paths_agree :
    (f g : Text → Bool) (ps : List Text)
    → Each (λ p. f p ≡ g p) ps
    → filter_paths f ps ≡ filter_paths g ps
filter_paths_agree f g [] h = refl
filter_paths_agree f g (p ∷ ps) h = rw (h.0, filter_paths_agree f g ps h.1) refl

pub Each-split : (Q : Text → Type 0) (l m : List Text) → Each Q (l ++ m) → Each Q l
Each-split Q [] m h = tt
Each-split Q (a ∷ l) m h = (h.0, Each-split Q l m h.1)

pub true_not_false : true ≢ false
true_not_false h = cc

pub Each-rest : (Q : Text → Type 0) (l m : List Text) → Each Q (l ++ m) → Each Q m
Each-rest Q [] m h = h
Each-rest Q (a ∷ l) m h = Each-rest Q l m h.1

pub bind_agree :
    {A B : Type 0} (o : Option A) (f g : A → Option B)
    → ((a : A) → f a ≡ g a)
    → (o >>= f) ≡ (o >>= g)
bind_agree none f g h = refl
bind_agree (some a) f g h = h a

pub lt_not_eq : (a b : Text) → text_lt a b ≡ true → text_eq a b ≡ false
lt_not_eq a b l = elim (Bool-cases (text_eq a b)) [
  | inr n ↦ n
  | inl e ↦
      absurd (true_not_false (sym l ∙ ap (λ t. text_lt t b) (text_eq→eq a b e) ∙ text_lt_irrefl b))
]

pub gt_not_eq : (a b : Text) → text_lt b a ≡ true → text_eq a b ≡ false
gt_not_eq a b l = elim (Bool-cases (text_eq a b)) [
  | inr n ↦ n
  | inl e ↦ absurd (true_not_false (sym l ∙ ap (text_lt b) (text_eq→eq a b e) ∙ text_lt_irrefl b))
]

-- The third case of `compare`.
pub greater : (a b : Text) → text_eq a b ≡ false → text_lt a b ≡ false → text_lt b a ≡ true
greater a b e l = elim (Bool-cases (text_lt b a)) [
  | inl g ↦ g
  | inr g ↦ absurd (true_not_false (sym (eq→text_eq a b (text_lt-total a b l g)) ∙ e))
]
