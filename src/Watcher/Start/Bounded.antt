-- ===== src/Watcher/Start/Bounded.antt =====
-- What src/processes/mainProcess.cpp keeps from its first watch on, whatever happens: how many workers
-- there are, and that each watch has an entry.
use cdnalizerd.Base.{
  ℕ, inl, inr, ◌≡◌, refl, ◌==◌, List, [], ◌∷◌, Option, none, some, arith, Option-cases,
}
use cdnalizerd.Base.Text.{Text, text_eq}
use cdnalizerd.Base.Maps.{find, assign}
use cdnalizerd.Base.Holds.{Holds, nothing, result, Holds-if, Holds-both, Holds-imp, Holds-some}
use cdnalizerd.Config.{ConfigEntry, should_ignore_directory}
use cdnalizerd.Config.Entries.{Config}
use cdnalizerd.Account.Cache.{AccountCache}
use cdnalizerd.Inotify.{Event, Added, added, not_added, add_watch}
use cdnalizerd.Jobs.{Task}
use cdnalizerd.Worker.Manager.{WorkerManager, workers_at}
use cdnalizerd.Worker.Manager.Bounds.{
  IsBounded, get_worker-IsBounded, add_job_at-IsBounded, replace_at-IsBounded, on_done-IsBounded,
}
use cdnalizerd.Sync.{Queues, RemoteList, Disk}
use cdnalizerd.Sync.Keeps.{sync_one_config_entry-IsBounded}
use cdnalizerd.Watcher.{
  Files, Watcher, watch_new_directory, watch_directories, recursively_watch_directory,
  create_inotify_watches, give_job, watch_ignored, entry_at, handle_event, WorkerTurn, works, ends,
  worker_turn, worker_turns, Arrival, handle_events,
}
use cdnalizerd.Watcher.Keeps.{Holds-and_then, Holds-bind, react-Holds}
use cdnalizerd.Watcher.Known.{IsKnown, handle_events-IsKnown}
use cdnalizerd.Watcher.Start.{
  Surroundings, no_watches, synchronised, sync_entries, start_watching, watch_for_file_changes,
}
use cdnalizerd.Watcher.Start.Known.{IsServed, start_watching-IsKnown}

worker_turn-IsBounded :
    (m : WorkerManager Task) (turn : WorkerTurn) → IsBounded m → IsBounded (worker_turn m turn)
unfolding worker_turn
worker_turn-IsBounded m (works url i w) h = replace_at-IsBounded m url i w h
worker_turn-IsBounded m (ends url i) h = on_done-IsBounded m url i h

worker_turns-IsBounded :
    (m : WorkerManager Task) (turns : List WorkerTurn)
    → IsBounded m
    → IsBounded (worker_turns m turns)
unfolding worker_turns
worker_turns-IsBounded m [] h = h
worker_turns-IsBounded m (turn ∷ turns) h =
    worker_turns-IsBounded (worker_turn m turn) turns (worker_turn-IsBounded m turn h)

module _ {Regex : Type 0} (files : Files Regex) (kernel : Text → Option ℕ) where
  abbrev Bounded : Watcher Regex → Type 0
  Bounded s = IsBounded s.workers

  watch_new_directory-IsBounded :
      (s : Watcher Regex) (entry : ConfigEntry Regex) (path : Text)
      → Bounded s
      → Holds Bounded (watch_new_directory files kernel s entry path)
  unfolding watch_new_directory
  watch_new_directory-IsBounded s entry path h =
      Holds-if Bounded (should_ignore_directory files.regex_search entry path) (some s) _ (result h)
        (watched (add_watch s.inotify path (kernel path)))
    where
      watched :
          (a : Added)
          → Holds Bounded (elim a [
            | not_added _ ↦ none
            | added watch inotify ↦ some (record s {
              inotify = inotify;
              watch_to_config = assign ◌==◌ s.watch_to_config watch.handle entry;
            })
          ])
      watched (not_added _) = nothing
      watched (added watch inotify) = result h

  watch_directories-IsBounded :
      (s : Watcher Regex) (entry : ConfigEntry Regex) (ds : List Text)
      → Bounded s
      → Holds Bounded (watch_directories files kernel s entry ds)
  unfolding watch_directories
  watch_directories-IsBounded s entry [] h = result h
  watch_directories-IsBounded s entry (d ∷ ds) h =
      Holds-bind (watch_new_directory-IsBounded s entry d h)
        (λ t k. watch_directories-IsBounded t entry ds k)

  create_inotify_watches-IsBounded :
      (s : Watcher Regex) (entries : List (ConfigEntry Regex))
      → Bounded s
      → Holds Bounded (create_inotify_watches files kernel s entries)
  unfolding create_inotify_watches recursively_watch_directory
  create_inotify_watches-IsBounded s [] h = result h
  create_inotify_watches-IsBounded s (entry ∷ entries) h =
      Holds-bind
        (Holds-bind (watch_new_directory-IsBounded s entry entry.local_dir h)
          (λ t k. Holds-and_then _ _ _ (λ ds e. watch_directories-IsBounded t entry ds k)))
        (λ t k. create_inotify_watches-IsBounded t entries k)

  entry_at-workers :
      (s : Watcher Regex) (handle : ℕ) → (entry_at files kernel s handle).1.workers ≡ s.workers
  unfolding entry_at
  entry_at-workers s handle = elim (Option-cases (find ◌==◌ s.watch_to_config handle)) [
    | inl e ↦ rw (e, entry_at) refl
    | inr (entry, e) ↦ rw (e, entry_at) refl
  ]

  handle_event-IsBounded :
      (accounts : AccountCache) (s : Watcher Regex) (event : Event)
      → Bounded s
      → Holds Bounded (handle_event files kernel accounts s event)
  unfolding handle_event watch_ignored give_job
  handle_event-IsBounded accounts s event h = Holds-and_then Bounded _ _ (λ watch e.
      let (entry, t) = entry_at files kernel s watch.handle in
      let same = entry_at-workers s watch.handle in
      Holds-and_then Bounded _ _ (λ rs p. Holds-and_then Bounded _ _ (λ url q.
        let got = get_worker-IsBounded t.workers url.raw (rw same h) in
        Holds-and_then Bounded _ _ (λ relative r.
          react-Holds files kernel Bounded _ event watch entry url _ relative got
            (λ u j job. add_job_at-IsBounded _ u j job.0 got) got
            (watch_new_directory-IsBounded _ entry _ got)))))

module _ {Regex : Type 0} (files : Files Regex) where
  handle_events-IsBounded :
      (accounts : AccountCache) (s : Watcher Regex) (events : List Arrival)
      → IsBounded s.workers
      → Holds (λ t. IsBounded t.workers) (handle_events files accounts s events)
  unfolding handle_events
  handle_events-IsBounded accounts s [] h = result h
  handle_events-IsBounded accounts s (a ∷ events) h =
      Holds-bind
        (handle_event-IsBounded files a.kernel accounts
          (record s { workers = worker_turns s.workers a.turns }) a.event
          (worker_turns-IsBounded s.workers a.turns h))
        (λ t k. handle_events-IsBounded accounts t events k)

sync_entries-IsBounded :
    {Regex : Type 0} (disk : Disk Regex) (accounts : AccountCache)
    (synced : List (ConfigEntry Regex × RemoteList)) (q : Queues)
    → IsBounded q.workers
    → Holds (λ r. IsBounded r.workers) (sync_entries disk accounts synced q)
unfolding sync_entries
sync_entries-IsBounded disk accounts [] q h = result h
sync_entries-IsBounded disk accounts ((entry, remote) ∷ rest) q h =
    elim (Option-cases (find text_eq accounts entry.username)) [
      | inl e ↦ rw (e, sync_entries) nothing
      | inr (rs, e) ↦
          rw (e, sync_entries)
            (Holds-bind (sync_one_config_entry-IsBounded disk rs entry remote q h)
              (λ r k. sync_entries-IsBounded disk accounts rest r k))
    ]

no_workers-IsBounded : IsBounded {Work = Task} (record { workers = [] })
unfolding workers_at
no_workers-IsBounded url = omega arith

module _ {Regex : Type 0} (S : Surroundings Regex) (config : Config Regex) where
  -- Each watch stands under its own handle, and has there an entry of the configuration, whose account
  -- is among those that the login gave.
  abbrev pub HasKnown : Watcher Regex → Type 0
  HasKnown t =
      (accounts : AccountCache) × (s : Watcher Regex) × (start_watching S config
        ≡ some (accounts, s))
      × IsKnown (IsServed config.entries accounts) t

  start_watching-IsBounded : Holds (λ r. IsBounded r.1.workers) (start_watching S config)
  unfolding start_watching synchronised
  start_watching-IsBounded =
      Holds-if _ S.inotify_init _ none
        (Holds-bind
          (create_inotify_watches-IsBounded S.files S.kernel no_watches config.entries
            no_workers-IsBounded)
          (λ s h. Holds-and_then {A = AccountCache} _ _ _ (λ accounts e.
            Holds-bind
              (sync_entries-IsBounded S.disk accounts S.synced
                (record { workers = s.workers; next_id = s.next_id }) h)
              (λ q k.
                result {a = (accounts, record s { workers = q.workers; next_id = q.next_id })} k))))
        nothing

  -- From its first watch on the watcher keeps its bounds. Whatever the configuration, the file system,
  -- the kernel and the servers do, and whichever events and turns of the workers come: the run ends by
  -- an exception, or in its state after these events no URL has more than three workers, each watch
  -- stands under its own handle, and watchToConfig has for that handle an entry of the configuration
  -- whose account is among those that the login gave.
  pub watch_for_file_changes-IsBounded :
      (events : List Arrival)
      → Holds (λ t. IsBounded t.workers × HasKnown t) (watch_for_file_changes S config events)
  unfolding watch_for_file_changes
  watch_for_file_changes-IsBounded events = Holds-and_then _ _ _ (λ (accounts, s) e.
      let h = Holds-some e start_watching-IsBounded in
      let known = Holds-some e (start_watching-IsKnown S config) in
      Holds-both {Q = HasKnown} (handle_events-IsBounded S.files accounts s events h) (
        Holds-imp (λ t k. (accounts, s, e, k))
          (handle_events-IsKnown (IsServed config.entries accounts) S.files accounts s events
            known)))
