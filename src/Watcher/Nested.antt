-- ===== src/Watcher/Nested.antt =====
-- Directories that two entries of a configuration share, in src/processes/mainProcess.cpp.
use cdnalizerd.Base.{
  ℕ, ◌≡◌, inl, inr, refl, subst, false, List, [], ◌∷◌, Option, none, some, ◌==◌, Bool-cases,
  Option-cases,
}
use cdnalizerd.Base.Text.{Text, text_eq, text_eq_refl}
use cdnalizerd.Base.Maps.{find}
use cdnalizerd.Config.{ConfigEntry, should_ignore_directory}
use cdnalizerd.Inotify.{add_watch, emplace_watch}
use cdnalizerd.Watcher.{
  Files, Watcher, and_then, watch_new_directory, watch_directories, recursively_watch_directory,
  create_inotify_watches,
}
use cdnalizerd.Base.Holds.{Holds, nothing, result}
use cdnalizerd.Watcher.Keeps.{Holds-bind, Holds-and_then}

-- The path is watched.
abbrev Watched : {Regex : Type 0} → Text → Watcher Regex → Type 0
Watched p s = (h : ℕ) × (find text_eq s.inotify.paths p ≡ some h)

Watched-cons :
    (m : List (Text × ℕ)) (p q : Text) (k : ℕ)
    → ((h : ℕ) × (find text_eq m p ≡ some h))
    → (h : ℕ) × (find text_eq ((q, k) ∷ m) p ≡ some h)
unfolding find
Watched-cons m p q k (h, e) = elim (Bool-cases (text_eq q p)) [
  | inl t ↦ (k, rw t refl)
  | inr t ↦ (h, rw t e)
]

Watched-here :
    (m : List (Text × ℕ)) (p : Text) (k : ℕ) → (h : ℕ) × (find text_eq ((p, k) ∷ m) p ≡ some h)
unfolding find
Watched-here m p k = (k, rw (text_eq_refl p) refl)

and_then-none :
    {A B : Type 0} (P : A → Type 0) (o : Option A) (f : A → Option B)
    → Holds P o
    → ((a : A) → P a → f a ≡ none)
    → and_then o f ≡ none
unfolding and_then
and_then-none P none f h k = refl
and_then-none P (some a) f (result x) k = k a x

none_bind : {A B : Type 0} (o : Option A) (f : A → Option B) → o ≡ none → and_then o f ≡ none
unfolding and_then
none_bind o f e = rw e refl

module _ {Regex : Type 0} (files : Files Regex) (kernel : Text → Option ℕ) where
  -- Watching one directory forgets no path, and adds its own unless it is ignored.
  watch_new_directory-Watched :
      (s : Watcher Regex) (entry : ConfigEntry Regex) (path p : Text)
      → Watched p s
      → Holds (Watched p) (watch_new_directory files kernel s entry path)
  unfolding watch_new_directory add_watch emplace_watch
  watch_new_directory-Watched s entry path p known =
      elim (Bool-cases (should_ignore_directory files.regex_search entry path)) [
        | inl i ↦ rw (i, watch_new_directory) (result known)
        | inr i ↦ elim (Option-cases (find text_eq s.inotify.paths path)) [
          | inr (h, e) ↦ rw (i, watch_new_directory, e, add_watch) nothing
          | inl e ↦ elim (Option-cases (kernel path)) [
            | inl k ↦ rw (i, watch_new_directory, e, add_watch, k) nothing
            | inr (h, k) ↦ elim (Option-cases (find ◌==◌ s.inotify.watches h)) [
              | inl w ↦
                  rw (i, watch_new_directory, e, add_watch, k, w, emplace_watch)
                    (result (Watched-cons s.inotify.paths p path h known))
              | inr (v, w) ↦
                  rw (i, watch_new_directory, e, add_watch, k, w, emplace_watch)
                    (result (Watched-cons s.inotify.paths p path h known))
            ]
          ]
        ]
      ]

  watch_new_directory-own :
      (s : Watcher Regex) (entry : ConfigEntry Regex) (path : Text)
      → should_ignore_directory files.regex_search entry path ≡ false
      → Holds (Watched path) (watch_new_directory files kernel s entry path)
  unfolding watch_new_directory add_watch emplace_watch
  watch_new_directory-own s entry path i = elim (Option-cases (find text_eq s.inotify.paths path)) [
    | inr (h, e) ↦ rw (i, watch_new_directory, e, add_watch) nothing
    | inl e ↦ elim (Option-cases (kernel path)) [
      | inl k ↦ rw (i, watch_new_directory, e, add_watch, k) nothing
      | inr (h, k) ↦ elim (Option-cases (find ◌==◌ s.inotify.watches h)) [
        | inl w ↦
            rw (i, watch_new_directory, e, add_watch, k, w, emplace_watch)
              (result (Watched-here s.inotify.paths path h))
        | inr (v, w) ↦
            rw (i, watch_new_directory, e, add_watch, k, w, emplace_watch)
              (result (Watched-here s.inotify.paths path h))
      ]
    ]
  ]

  watch_new_directory-again :
      (s : Watcher Regex) (entry : ConfigEntry Regex) (path : Text)
      → should_ignore_directory files.regex_search entry path ≡ false
      → Watched path s
      → watch_new_directory files kernel s entry path ≡ none
  unfolding watch_new_directory add_watch
  watch_new_directory-again s entry path i (h, e) = rw (i, watch_new_directory, e, add_watch) refl

  watch_directories-Watched :
      (s : Watcher Regex) (entry : ConfigEntry Regex) (ds : List Text) (p : Text)
      → Watched p s
      → Holds (Watched p) (watch_directories files kernel s entry ds)
  unfolding watch_directories
  watch_directories-Watched s entry [] p known = result known
  watch_directories-Watched s entry (d ∷ ds) p known =
      Holds-bind (watch_new_directory-Watched s entry d p known)
        (λ t k. watch_directories-Watched t entry ds p k)

  recursively_watch_directory-Watched :
      (s : Watcher Regex) (entry : ConfigEntry Regex) (path : Text)
      → should_ignore_directory files.regex_search entry entry.local_dir ≡ false
      → Holds (Watched entry.local_dir) (recursively_watch_directory files kernel s entry path)
  unfolding recursively_watch_directory
  recursively_watch_directory-Watched s entry path i =
      Holds-bind (watch_new_directory-own s entry entry.local_dir i) (λ t k.
        Holds-and_then (Watched entry.local_dir) _ _
          (λ ds e. watch_directories-Watched t entry ds entry.local_dir k))

  -- Two entries that follow each other with one local directory, which neither ignores, end the
  -- watcher before its loop begins, whatever the kernel and the file system answer.
  pub create_inotify_watches-shared :
      (s : Watcher Regex) (e f : ConfigEntry Regex) (entries : List (ConfigEntry Regex))
      → e.local_dir ≡ f.local_dir
      → should_ignore_directory files.regex_search e e.local_dir ≡ false
      → should_ignore_directory files.regex_search f f.local_dir ≡ false
      → create_inotify_watches files kernel s (e ∷ f ∷ entries) ≡ none
  unfolding create_inotify_watches recursively_watch_directory
  create_inotify_watches-shared s e f entries same i j =
      and_then-none (Watched e.local_dir) _ _
        (recursively_watch_directory-Watched s e e.local_dir i)
        (λ t known. none_bind _ _ (
          none_bind _ _
            (watch_new_directory-again t f f.local_dir j (subst (λ p. Watched p t) same known))))
