-- ===== src/Watcher/Start/Known.antt =====
-- Whose watches the loop of src/processes/mainProcess.cpp finds, and with which account.
use cdnalizerd.Base.{
  none_not_some, ℕ, ◌≡◌, refl, subst, List, [], ◌∷◌, ◌++◌, Option, none, some, ◌==◌, Each,
  append_assoc,
}
use cdnalizerd.Base.Text.{Text, text_eq}
use cdnalizerd.Base.Maps.{find}
use cdnalizerd.Config.{ConfigEntry}
use cdnalizerd.Config.Entries.{Config}
use cdnalizerd.Account.{Rackspace}
use cdnalizerd.Account.Cache.{AccountCache}
use cdnalizerd.Account.LoginAll.Laws.{HasAccount}
use cdnalizerd.Account.LoginAll.Ends.{login-HasAccount}
use cdnalizerd.Inotify.{Watch, Event}
use cdnalizerd.Watcher.{Watcher, Arrival, entry_at, handle_events}
use cdnalizerd.Base.Holds.{Holds, nothing, result, Holds-if, Holds-some}
use cdnalizerd.Watcher.Keeps.{Holds-and_then, Holds-bind}
use cdnalizerd.Sync.{Queues}
use cdnalizerd.Watcher.Start.{Surroundings, no_watches, synchronised, start_watching}
use cdnalizerd.Watcher.Known.{
  IsKnown, create_inotify_watches-IsKnown, entry_at-known, handle_events-IsKnown,
}

no_watches-IsKnown : {Regex : Type 0} {Q : ConfigEntry Regex → Type 0} → IsKnown Q no_watches
unfolding find
no_watches-IsKnown h w e = absurd (none_not_some e)

-- The entry is one of these.
abbrev pub IsOf : {Regex : Type 0} → List (ConfigEntry Regex) → ConfigEntry Regex → Type 0
IsOf {Regex} entries e =
    (front : List (ConfigEntry Regex)) × (back : List (ConfigEntry Regex)) × (entries
      ≡ front ++ e ∷ back)

IsOf-each :
    {Regex : Type 0} (front back : List (ConfigEntry Regex)) → Each (IsOf (front ++ back)) back
IsOf-each front [] = tt
IsOf-each front (e ∷ back) = (
  (front, back, refl),
  subst (λ l. Each (IsOf l) back) (append_assoc front (e ∷ []) back)
      (IsOf-each (front ++ e ∷ []) back),
)

Each-IsOf :
    {Regex : Type 0} (Q : ConfigEntry Regex → Type 0) (entries : List (ConfigEntry Regex))
    (e : ConfigEntry Regex)
    → Each Q entries
    → IsOf entries e
    → Q e
Each-IsOf {Regex} Q entries e qs (front, back, split) = at front (subst (Each Q) split qs)
  where
    at : (front : List (ConfigEntry Regex)) → Each Q (front ++ e ∷ back) → Q e
    at [] h = h.0
    at (f ∷ front) h = at front h.1

abbrev pub IsServed :
    {Regex : Type 0} → List (ConfigEntry Regex) → AccountCache → ConfigEntry Regex → Type 0
IsServed entries accounts e = IsOf entries e × HasAccount accounts e

module _ {Regex : Type 0} (S : Surroundings Regex) (config : Config Regex) where
  synchronised-IsKnown :
      (s : Watcher Regex) (accounts : AccountCache)
      → IsKnown (IsOf config.entries) s
      → Each (HasAccount accounts) config.entries
      → Holds (λ r. IsKnown (IsServed config.entries r.0) r.1) (synchronised S s accounts)
  unfolding synchronised
  synchronised-IsKnown s accounts known all = Holds-and_then {A = Queues} _ _ _ (λ q f.
      result {a = (accounts, record s { workers = q.workers; next_id = q.next_id })} (λ h w found.
        let (own, (entry, p, member)) = known h w found in
        (
          own,
          (entry, p, (member, Each-IsOf (HasAccount accounts) config.entries entry all member)),
        )))

  pub start_watching-IsKnown :
      Holds (λ r. IsKnown (IsServed config.entries r.0) r.1) (start_watching S config)
  unfolding start_watching
  start_watching-IsKnown =
      Holds-if _ S.inotify_init _ none
        (Holds-bind
          (create_inotify_watches-IsKnown (IsOf config.entries) S.files S.kernel no_watches
            config.entries (IsOf-each [] config.entries) no_watches-IsKnown)
          (λ s known. Holds-and_then _ _ _ (λ accounts e. synchronised-IsKnown s accounts known (
            login-HasAccount S.login_server config.entries [] accounts S.login_world S.login_turns
              e))))
        nothing

  -- The loop never throws that an account is missing. Whatever the configuration, the file system, the
  -- kernel, the servers, the schedule of the logins, and the events and the turns of the workers so far:
  -- for each watch that there is
  -- when the next event comes, the entry that watchToConfig has for it is one of the configuration, no
  -- entry is inserted, and its account is found.
  pub watch_for_file_changes_known :
      (accounts : AccountCache) (s t : Watcher Regex) (events : List Arrival) (event : Event)
      (watch : Watch) (kernel : Text → Option ℕ)
      → start_watching S config ≡ some (accounts, s)
      → handle_events S.files accounts s events ≡ some t
      → find ◌==◌ t.inotify.watches event.wd ≡ some watch
      → (entry : ConfigEntry Regex) × (rs : Rackspace) × (entry_at S.files kernel t watch.handle
          ≡ (entry, t))
        × IsOf config.entries entry
        × (find text_eq accounts entry.username ≡ some rs)
  watch_for_file_changes_known accounts s t events event watch kernel e f found =
      let started = Holds-some e start_watching-IsKnown in
      let known = Holds-some f (
        handle_events-IsKnown (IsServed config.entries accounts) S.files accounts s events
          started) in
      let (_, entry, at, (member, (rs, account))) =
        entry_at-known (IsServed config.entries accounts) S.files kernel t event.wd watch known
          found in
      (entry, rs, at, member, account)
