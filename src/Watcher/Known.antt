-- ===== src/Watcher/Known.antt =====
-- Each watch of src/processes/mainProcess.cpp has an entry of the configuration, from the first watch
-- on and through every event.
use cdnalizerd.Base.{
  none_not_some, some_injective, ℕ, ◌≡◌, ◌≢◌, inl, inr, refl, sym, ap, ◌∙◌, List, [], ◌∷◌, Option,
  some, arith, ◌==◌, ==_iff, Bool-cases, Option-cases, Each,
}
use cdnalizerd.Base.Text.{Text, text_eq}
use cdnalizerd.Base.Maps.{
  find, erase, assign, ==_IsEquality, find-assign_same, find-assign_other, find-erase_same,
  find-erase_other,
}
use cdnalizerd.Config.{ConfigEntry, should_ignore_directory}
use cdnalizerd.Account.{Rackspace}
use cdnalizerd.Worker.Manager.{get_worker}
use cdnalizerd.Inotify.{Watch, Event, add_watch, emplace_watch}
use cdnalizerd.Inotify.Laws.{find-cons_other, find-cons_here, remove_watch-found}
use cdnalizerd.Watcher.{
  Files, Watcher, watch_new_directory, watch_directories, recursively_watch_directory,
  create_inotify_watches, entry_at, give_job, watch_ignored, handle_event, Arrival, worker_turns,
  handle_events,
}
use cdnalizerd.Base.Holds.{Holds, nothing, result, Holds-if}
use cdnalizerd.Watcher.Keeps.{Holds-and_then, Holds-bind, react-Holds}

module _ {Regex : Type 0} (Q : ConfigEntry Regex → Type 0) where
  -- An entry with `Q` stands at the handle.
  abbrev Owned : Watcher Regex → ℕ → Type 0
  Owned s h = (e : ConfigEntry Regex) × (find ◌==◌ s.watch_to_config h ≡ some e) × Q e

  -- Each watch stands under its own handle, which has an entry with `Q`.
  abbrev pub IsKnown : Watcher Regex → Type 0
  IsKnown s =
      (h : ℕ) (w : Watch) → find ◌==◌ s.inotify.watches h ≡ some w → (w.handle ≡ h) × Owned s h

  assigned :
      (s : Watcher Regex) (k h : ℕ) (entry : ConfigEntry Regex)
      → Q entry
      → (k ≢ h → Owned s h)
      → (e : ConfigEntry Regex) × (find ◌==◌ (assign ◌==◌ s.watch_to_config k entry) h ≡ some e)
        × Q e
  assigned s k h entry q other = elim (Bool-cases (k == h)) [
    | inl t ↦ (
      entry,
      ap (find ◌==◌ (assign ◌==◌ s.watch_to_config k entry)) (sym ((==_iff k h).0 t))
          ∙ find-assign_same ==_IsEquality s.watch_to_config k entry,
      q,
    )
    | inr t ↦
        let (e, f, r) = other (λ z. ground arith) in
        (e, find-assign_other ==_IsEquality s.watch_to_config k h entry (λ z. ground arith) ∙ f, r)
  ]

  with_new :
      (s : Watcher Regex) (entry : ConfigEntry Regex) (h : ℕ) (path : Text)
      → Q entry
      → IsKnown s
      → IsKnown (record s {
        inotify = record {
          watches = (h, record { handle = h; path = path }) ∷ s.inotify.watches;
          paths = (path, h) ∷ s.inotify.paths;
          removed = s.inotify.removed;
        };
        watch_to_config = assign ◌==◌ s.watch_to_config h entry;
      })
  with_new s entry h path q known i v f = elim (Bool-cases (h == i)) [
    | inl t ↦
        let here =
          find-cons_here ◌==◌ s.inotify.watches h i (record { handle = h; path = path }) t in
        (
          ap (λ w. w.handle) (some_injective (sym f ∙ here)) ∙ (==_iff h i).0 t,
          assigned s h i entry q (λ z. absurd (z ((==_iff h i).0 t))),
        )
    | inr t ↦
        let (own, owned) = known i v (sym (find-cons_other ◌==◌ s.inotify.watches h i _ t) ∙ f) in
        (own, assigned s h i entry q (λ _. owned))
  ]

  module _ (files : Files Regex) (kernel : Text → Option ℕ) where
    watch_new_directory-IsKnown :
        (s : Watcher Regex) (entry : ConfigEntry Regex) (path : Text)
        → Q entry
        → IsKnown s
        → Holds IsKnown (watch_new_directory files kernel s entry path)
    unfolding watch_new_directory add_watch emplace_watch
    watch_new_directory-IsKnown s entry path q known =
        Holds-if IsKnown (should_ignore_directory files.regex_search entry path) (some s) _
          (result known)
          (elim (Option-cases (find text_eq s.inotify.paths path)) [
            | inr (h, e) ↦ rw (e, add_watch) nothing
            | inl e ↦ elim (Option-cases (kernel path)) [
              | inl k ↦ rw (e, add_watch, k) nothing
              | inr (h, k) ↦ elim (Option-cases (find ◌==◌ s.inotify.watches h)) [
                | inl w ↦
                    rw (e, add_watch, k, w, emplace_watch)
                      (result (with_new s entry h path q known))
                | inr (v, w) ↦
                    rw (e, add_watch, k, w, emplace_watch)
                      (result (λ i u f.
                        ((known i u f).0, assigned s v.handle i entry q (λ _. (known i u f).1))))
              ]
            ]
          ])

    watch_directories-IsKnown :
        (s : Watcher Regex) (entry : ConfigEntry Regex) (ds : List Text)
        → Q entry
        → IsKnown s
        → Holds IsKnown (watch_directories files kernel s entry ds)
    unfolding watch_directories
    watch_directories-IsKnown s entry [] q known = result known
    watch_directories-IsKnown s entry (d ∷ ds) q known =
        Holds-bind (watch_new_directory-IsKnown s entry d q known)
          (λ t k. watch_directories-IsKnown t entry ds q k)

    pub create_inotify_watches-IsKnown :
        (s : Watcher Regex) (entries : List (ConfigEntry Regex))
        → Each Q entries
        → IsKnown s
        → Holds IsKnown (create_inotify_watches files kernel s entries)
    unfolding create_inotify_watches recursively_watch_directory
    create_inotify_watches-IsKnown s [] q known = result known
    create_inotify_watches-IsKnown s (entry ∷ entries) (q, qs) known =
        Holds-bind
          (Holds-bind (watch_new_directory-IsKnown s entry entry.local_dir q known)
            (λ t k. Holds-and_then IsKnown _ _ (λ ds e. watch_directories-IsKnown t entry ds q k)))
          (λ t k. create_inotify_watches-IsKnown t entries qs k)

    watch_ignored-IsKnown :
        (s : Watcher Regex) (w : Watch)
        → find ◌==◌ s.inotify.watches w.handle ≡ some w
        → IsKnown s
        → IsKnown (watch_ignored files kernel s w)
    unfolding watch_ignored
    watch_ignored-IsKnown s w e known h v f =
        let g = ap (λ i. find ◌==◌ i.watches h) (sym (remove_watch-found s.inotify w e)) ∙ f in
        let other : h ≢ w.handle = λ z. none_not_some (
          sym (find-erase_same ==_IsEquality s.inotify.watches w.handle)
          ∙ ap (find ◌==◌ (erase ◌==◌ s.inotify.watches w.handle)) (sym z)
          ∙ g) in
        let (own, (entry, p, q)) =
          known h v (sym (find-erase_other ==_IsEquality s.inotify.watches w.handle h other) ∙ g) in
        (own, (entry, find-erase_other ==_IsEquality s.watch_to_config w.handle h other ∙ p, q))

    -- An event of a watch that there is finds an entry with `Q`, and inserts none.
    pub entry_at-known :
        (s : Watcher Regex) (h : ℕ) (w : Watch)
        → IsKnown s
        → find ◌==◌ s.inotify.watches h ≡ some w
        → (find ◌==◌ s.inotify.watches w.handle ≡ some w)
          × (entry : ConfigEntry Regex) × (entry_at files kernel s w.handle ≡ (entry, s))
          × Q entry
    unfolding entry_at
    entry_at-known s h w known e =
        let (own, (entry, p, q)) = known h w e in
        let here = ap (find ◌==◌ s.inotify.watches) own ∙ e in
        let found = ap (find ◌==◌ s.watch_to_config) own ∙ p in
        (here, entry, rw (found, entry_at) refl, q)

    handle_event-IsKnown :
        (accounts : List (Text × Rackspace)) (s : Watcher Regex) (event : Event)
        → IsKnown s
        → Holds IsKnown (handle_event files kernel accounts s event)
    unfolding handle_event give_job
    handle_event-IsKnown accounts s event known = Holds-and_then IsKnown _ _ (λ watch e.
        let (here, entry, at, q) = entry_at-known s event.wd watch known e in
        rw at (
          Holds-and_then IsKnown _ _ (λ rs p. Holds-and_then IsKnown _ _ (λ url f.
            Holds-and_then IsKnown _ _ (λ relative r.
              let t : Watcher Regex = record s { workers = (get_worker s.workers url.raw).0 } in
              react-Holds files kernel IsKnown t event watch entry url _ relative known
                (λ u j job. known) (watch_ignored-IsKnown t watch here known)
                (watch_new_directory-IsKnown t entry _ q known))))))

module _ {Regex : Type 0} (Q : ConfigEntry Regex → Type 0) (files : Files Regex) where
  pub handle_events-IsKnown :
      (accounts : List (Text × Rackspace)) (s : Watcher Regex) (events : List Arrival)
      → IsKnown Q s
      → Holds (IsKnown Q) (handle_events files accounts s events)
  unfolding handle_events
  handle_events-IsKnown accounts s [] known = result known
  handle_events-IsKnown accounts s (a ∷ events) known =
      Holds-bind
        (handle_event-IsKnown Q files a.kernel accounts
          (record s { workers = worker_turns s.workers a.turns }) a.event known)
        (λ t k. handle_events-IsKnown accounts t events k)
