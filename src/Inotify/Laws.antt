-- ===== src/Inotify/Laws.antt =====
-- The two maps of `Instance` in src/inotify.hpp stay paired.
use cdnalizerd.Base.{
  none_not_some, some_injective, ℕ, ◌≡◌, ◌≢◌, inl, inr, refl, sym, ap, ◌∙◌, Bool, true, false, List,
  [], ◌∷◌, ◌++◌, Option, none, some, ◌==◌, ==_iff, Bool-cases,
}
use cdnalizerd.Base.Text.{Text, text_eq, text_eq→eq, text_eq_refl}
use cdnalizerd.Base.Maps.{
  find, erase, text_eq-IsEquality, ==_IsEquality, unequal, find-erase_same, find-erase_other,
}
use cdnalizerd.Inotify.{
  Watch, Instance, added, not_added, same_path_twice, add_watch, emplace_watch, remove_watch,
  already_watching,
}

-- Each path's handle has the watch of that path, and each watch stands under its own handle with its
-- path.
pub record IsPaired (i : Instance) : Type 0 where
  pub of_path :
      (p : Text) (h : ℕ)
      → find text_eq i.paths p ≡ some h
      → (w : Watch) × (find ◌==◌ i.watches h ≡ some w) × (w.path ≡ p)
  pub of_handle :
      (h : ℕ) (w : Watch)
      → find ◌==◌ i.watches h ≡ some w
      → (w.handle ≡ h) × (find text_eq i.paths w.path ≡ some h)

find-cons_same :
    {V : Type 0} (m : List (Text × V)) (k : Text) (v : V) → find text_eq ((k, v) ∷ m) k ≡ some v
unfolding find
find-cons_same m k v = rw (text_eq_refl k) refl

pub find-cons_other :
    {K V : Type 0} (key_eq : K → K → Bool) (m : List (K × V)) (k j : K) (v : V)
    → key_eq k j ≡ false
    → find key_eq ((k, v) ∷ m) j ≡ find key_eq m j
unfolding find
find-cons_other key_eq m k j v e = rw e refl

pub find-cons_here :
    {K V : Type 0} (key_eq : K → K → Bool) (m : List (K × V)) (k j : K) (v : V)
    → key_eq k j ≡ true
    → find key_eq ((k, v) ∷ m) j ≡ some v
unfolding find
find-cons_here key_eq m k j v e = rw e refl

-- The instance after a watch with a new handle and a new path.
abbrev pub with_watch : Instance → Watch → Instance
with_watch i w = record i {
  watches = (w.handle, w) ∷ i.watches;
  paths = (w.path, w.handle) ∷ i.paths;
}

pub with_watch-IsPaired :
    (i : Instance) (w : Watch)
    → IsPaired i
    → find ◌==◌ i.watches w.handle ≡ none
    → find text_eq i.paths w.path ≡ none
    → IsPaired (with_watch i w)
with_watch-IsPaired i w paired new_handle new_path = record {
  of_path = λ p h e. elim (Bool-cases (text_eq w.path p)) [
    | inl t ↦ (
      w,
      find-cons_here ◌==◌ i.watches w.handle h w (
          (==_iff w.handle h).1
            (some_injective (sym (find-cons_here text_eq i.paths w.path p w.handle t) ∙ e))),
      text_eq→eq w.path p t,
    )
    | inr t ↦
        let old = sym (find-cons_other text_eq i.paths w.path p w.handle t) ∙ e in
        let (v, f, q) = paired.of_path p h old in
        (
          v,
          find-cons_other ◌==◌ i.watches w.handle h w (
                unequal ==_IsEquality w.handle h
                  (λ z. none_not_some (sym new_handle ∙ ap (find ◌==◌ i.watches) z ∙ f)))
              ∙ f,
          q,
        )
  ];
  of_handle = λ h v e. elim (Bool-cases (w.handle == h)) [
    | inl t ↦
        let same = some_injective (sym (find-cons_here ◌==◌ i.watches w.handle h w t) ∙ e) in
        let handles = (==_iff w.handle h).0 t in
        (
          ap (λ x. x.handle) (sym same) ∙ handles,
          rw (sym same) (find-cons_same i.paths w.path w.handle ∙ ap some handles),
        )
    | inr t ↦
        let old = sym (find-cons_other ◌==◌ i.watches w.handle h w t) ∙ e in
        let (q, f) = paired.of_handle h v old in
        (
          q,
          find-cons_other text_eq i.paths w.path v.path w.handle (
                unequal text_eq-IsEquality w.path v.path
                  (λ z. none_not_some (sym new_path ∙ ap (find text_eq i.paths) z ∙ f)))
              ∙ f,
        )
  ];
}

-- `addWatch` for a path that is not watched, when the kernel gives a handle that no watch has,
-- succeeds with a watch of that handle and path; the maps stay paired, the path is then watched, and
-- adding it again is refused, whatever the kernel would answer.
add_watch-IsPaired :
    (i : Instance) (path : Text) (handle : ℕ) (again : Option ℕ)
    → IsPaired i
    → find text_eq i.paths path ≡ none
    → find ◌==◌ i.watches handle ≡ none
    → (j : Instance) × (add_watch i path (some handle)
        ≡ added (record { handle = handle; path = path }) j)
      × IsPaired j
      × (already_watching j path ≡ true)
      × (add_watch j path again ≡ not_added same_path_twice)
unfolding add_watch emplace_watch already_watching
add_watch-IsPaired i path handle again paired new_path new_handle =
    let w : Watch = record { handle = handle; path = path } in
    let here = find-cons_same i.paths path handle in
    (
      with_watch i w,
      rw (new_path, add_watch, new_handle, emplace_watch) refl,
      with_watch-IsPaired i w paired new_handle new_path,
      rw (here, already_watching) refl,
      rw (here, add_watch) refl,
    )

-- The instance after `removeWatch`.
abbrev without_watch : Instance → Watch → Instance
without_watch i w = record {
  watches = erase ◌==◌ i.watches w.handle;
  paths = erase text_eq i.paths w.path;
  removed = i.removed ++ w.handle ∷ [];
}

without_watch-IsPaired :
    (i : Instance) (w : Watch)
    → IsPaired i
    → find ◌==◌ i.watches w.handle ≡ some w
    → IsPaired (without_watch i w)
without_watch-IsPaired i w paired e = record {
  of_path = λ p h f.
      let other_path : p ≢ w.path = λ z. none_not_some (
        sym (find-erase_same text_eq-IsEquality i.paths w.path)
        ∙ ap (find text_eq (erase text_eq i.paths w.path)) (sym z)
        ∙ f) in
      let (v, g, q) =
        paired.of_path p h
          (sym (find-erase_other text_eq-IsEquality i.paths w.path p other_path) ∙ f) in
      let other_handle : h ≢ w.handle = λ z.
        other_path
          (sym q ∙ ap (λ x. x.path) (some_injective (sym g ∙ ap (find ◌==◌ i.watches) z ∙ e))) in
      (v, find-erase_other ==_IsEquality i.watches w.handle h other_handle ∙ g, q);
  of_handle = λ h v f.
      let other_handle : h ≢ w.handle = λ z. none_not_some (
        sym (find-erase_same ==_IsEquality i.watches w.handle)
        ∙ ap (find ◌==◌ (erase ◌==◌ i.watches w.handle)) (sym z)
        ∙ f) in
      let (q, g) =
        paired.of_handle h v
          (sym (find-erase_other ==_IsEquality i.watches w.handle h other_handle) ∙ f) in
      let other_path : v.path ≢ w.path = λ z. other_handle (
        some_injective (sym g ∙ ap (find text_eq i.paths) z ∙ (paired.of_handle w.handle w e).1)) in
      (q, find-erase_other text_eq-IsEquality i.paths w.path v.path other_path ∙ g);
}

pub remove_watch-found :
    (i : Instance) (w : Watch)
    → find ◌==◌ i.watches w.handle ≡ some w
    → remove_watch i w ≡ without_watch i w
unfolding remove_watch
remove_watch-found i w e = rw (e, remove_watch) refl

-- `removeWatch` of a watch that there is keeps the maps paired; neither its handle nor its path is
-- then known.
pub remove_watch-IsPaired :
    (i : Instance) (w : Watch)
    → IsPaired i
    → find ◌==◌ i.watches w.handle ≡ some w
    → IsPaired (remove_watch i w)
      × (find ◌==◌ (remove_watch i w).watches w.handle ≡ none)
      × (already_watching (remove_watch i w) w.path ≡ false)
unfolding already_watching
remove_watch-IsPaired i w paired e = rw (remove_watch-found i w e) (
  without_watch-IsPaired i w paired e,
  find-erase_same ==_IsEquality i.watches w.handle,
  rw (find-erase_same text_eq-IsEquality i.paths w.path, already_watching) refl,
)
