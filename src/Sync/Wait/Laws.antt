-- ===== src/Sync/Wait/Laws.antt =====
-- When the wait of src/processes/syncAllDirectories.cpp ends.
use cdnalizerd.Base.{
  none_not_some, some_injective, ℕ, zero, suc, ◌+◌, ◌-◌, ◌≤◌, ◌<◌, ◌≡◌, ◌≢◌, ◌↔◌, ◌⊎◌, inl, inr,
  refl, sym, ◌∙◌, true, false, List, [], ◌∷◌, some, arith, ◌==◌, ==_iff, ◌&&◌, if◌then◌else◌,
  get_elem?, Each, Bool-cases, Option-cases,
}
use cdnalizerd.Config.{ConfigEntry}
use cdnalizerd.Account.Cache.{AccountCache}
use cdnalizerd.Account.LoginAll.Laws.{HasAccount}
use cdnalizerd.Sync.Wait.{
  SyncWorker, spawned, syncing, finished, SyncRun, set_worker, sync_turn, sync_turns, spawn_all,
  wait_for_sync, sync_all_directories,
}

abbrev is_spawned : SyncWorker → ℕ
is_spawned spawned = 1
is_spawned _ = 0

abbrev is_syncing : SyncWorker → ℕ
is_syncing syncing = 1
is_syncing _ = 0

abbrev pub count : (SyncWorker → ℕ) → List SyncWorker → ℕ
count f [] = 0
count f (w ∷ ws) = f w + count f ws

true_not_false : true ≢ false
true_not_false h = cc

-- How many coroutines have not started, and how many have started and not ended.
abbrev pub spawned_count : List SyncWorker → ℕ
spawned_count = count is_spawned

abbrev pub syncing_count : List SyncWorker → ℕ
syncing_count = count is_syncing

count-set_worker :
    (f : SyncWorker → ℕ) (ws : List SyncWorker) (i : ℕ) (v w : SyncWorker)
    → get_elem? ws i ≡ some v
    → count f (set_worker ws i w) + f v ≡ count f ws + f w
unfolding set_worker
count-set_worker f [] i v w h = absurd (none_not_some h)
count-set_worker f (u ∷ ws) zero v w h = rw (some_injective h) (omega arith)
count-set_worker f (u ∷ ws) (suc i) v w h = omega (arith, count-set_worker f ws i v w h)

-- A turn starts a coroutine, or ends one.
record Starts (s t : SyncRun) : Type 0 where
  up : t.sync_workers ≡ s.sync_workers + 1
  under_way : syncing_count t.workers ≡ syncing_count s.workers + 1
  to_start : spawned_count s.workers ≡ spawned_count t.workers + 1
  waiting : t.waiting ≡ s.waiting
  woken : t.woken ≡ s.woken

record Ends (s t : SyncRun) : Type 0 where
  down : t.sync_workers ≡ s.sync_workers - 1
  under_way : syncing_count s.workers ≡ syncing_count t.workers + 1
  to_start : spawned_count t.workers ≡ spawned_count s.workers
  waiting : t.waiting ≡ s.waiting
  woken : t.woken ≡ (if t.sync_workers == 0 && s.waiting then true else s.woken)

starts : (i : ℕ) (s : SyncRun) → get_elem? s.workers i ≡ some spawned → Starts s (sync_turn i s)
unfolding sync_turn
starts i s e =
    let up = count-set_worker is_syncing s.workers i spawned syncing e in
    let gone = count-set_worker is_spawned s.workers i spawned syncing e in
    rw (e, sync_turn)
      (record {
        up = refl;
        under_way = omega (arith, up);
        to_start = omega (arith, gone);
        waiting = refl;
        woken = refl;
      })

ends : (i : ℕ) (s : SyncRun) → get_elem? s.workers i ≡ some syncing → Ends s (sync_turn i s)
unfolding sync_turn
ends i s e =
    let down = count-set_worker is_syncing s.workers i syncing finished e in
    let gone = count-set_worker is_spawned s.workers i syncing finished e in
    rw (e, sync_turn)
      (record {
        down = refl;
        under_way = omega (arith, down);
        to_start = omega (arith, gone);
        waiting = refl;
        woken = refl;
      })

sync_turn-cases :
    (i : ℕ) (s : SyncRun)
    → (sync_turn i s ≡ s) ⊎ (Starts s (sync_turn i s) ⊎ Ends s (sync_turn i s))
unfolding sync_turn
sync_turn-cases i s = elim (Option-cases (get_elem? s.workers i)) [
  | inl e ↦ inl (rw (e, sync_turn) refl)
  | inr (spawned, e) ↦ inr (inl (starts i s e))
  | inr (syncing, e) ↦ inr (inr (ends i s e))
  | inr (finished, e) ↦ inl (rw (e, sync_turn) refl)
]

-- Before the wait nothing is woken.
record IsBefore (s : SyncRun) : Type 0 where
  counted : s.sync_workers ≡ syncing_count s.workers
  waiting : s.waiting ≡ false
  woken : s.woken ≡ false

sync_turn-IsBefore : (i : ℕ) (s : SyncRun) → IsBefore s → IsBefore (sync_turn i s)
sync_turn-IsBefore i s h = elim (sync_turn-cases i s) [
  | inl e ↦ rw (e) h
  | inr (inl t) ↦ record {
    counted = omega (arith, h.counted, t.up, t.under_way);
    waiting = t.waiting ∙ h.waiting;
    woken = t.woken ∙ h.woken;
  }
  | inr (inr t) ↦ record {
    counted = omega (arith, h.counted, t.down, t.under_way);
    waiting = t.waiting ∙ h.waiting;
    woken = t.woken ∙ rw (h.waiting, h.woken) (ground arith);
  }
]

-- After it, with `started` coroutines under way at its begin and none to start, it is woken exactly if
-- there were some and none is left.
record IsAfter (started : ℕ) (s : SyncRun) : Type 0 where
  counted : s.sync_workers ≡ syncing_count s.workers
  to_start : spawned_count s.workers ≡ 0
  waiting : s.waiting ≡ true
  fewer : syncing_count s.workers ≤ started
  woken : (s.woken ≡ true) ↔ ((0 < started) × (syncing_count s.workers ≡ 0))

woken-Ends :
    (started i : ℕ) (s : SyncRun)
    → IsAfter started s
    → Ends s (sync_turn i s)
    → ((sync_turn i s).woken ≡ true) ↔ ((0 < started) × (syncing_count (sync_turn i s).workers ≡ 0))
woken-Ends started i s h t =
    let zero_iff = ==_iff (sync_turn i s).sync_workers 0 in
    elim (Bool-cases ((sync_turn i s).sync_workers == 0)) [
      | inl z ↦
          let none_left = zero_iff.0 z in
          (
            λ _. (
              omega (arith, h.fewer, t.under_way),
              omega (arith, none_left, h.counted, t.down, t.under_way),
            ),
            λ _. t.woken ∙ rw (z, h.waiting) refl,
          )
      | inr z ↦
          let same : (sync_turn i s).woken ≡ s.woken = t.woken ∙ rw (z) refl in
          (
            λ w.
                let (_, idle) = h.woken.0 (sym same ∙ w) in
                absurd (omega (arith, idle, t.under_way)),
            λ (_, idle).
                let none_left : (sync_turn i s).sync_workers ≡ 0 =
                  omega (arith, idle, h.counted, t.down, t.under_way) in
                absurd (true_not_false (sym (zero_iff.1 none_left) ∙ z)),
          )
    ]

sync_turn-IsAfter :
    (started i : ℕ) (s : SyncRun) → IsAfter started s → IsAfter started (sync_turn i s)
sync_turn-IsAfter started i s h = elim (sync_turn-cases i s) [
  | inl e ↦ rw (e) h
  | inr (inl t) ↦ absurd (omega (arith, h.to_start, t.to_start))
  | inr (inr t) ↦ record {
    counted = omega (arith, h.counted, t.down, t.under_way);
    to_start = t.to_start ∙ h.to_start;
    waiting = t.waiting ∙ h.waiting;
    fewer = omega (arith, h.fewer, t.under_way);
    woken = woken-Ends started i s h t;
  }
]

sync_turns-IsBefore : (turns : List ℕ) (s : SyncRun) → IsBefore s → IsBefore (sync_turns turns s)
unfolding sync_turns
sync_turns-IsBefore [] s h = h
sync_turns-IsBefore (i ∷ turns) s h =
    sync_turns-IsBefore turns (sync_turn i s) (sync_turn-IsBefore i s h)

sync_turns-IsAfter :
    (started : ℕ) (turns : List ℕ) (s : SyncRun)
    → IsAfter started s
    → IsAfter started (sync_turns turns s)
unfolding sync_turns
sync_turns-IsAfter started [] s h = h
sync_turns-IsAfter started (i ∷ turns) s h =
    sync_turns-IsAfter started turns (sync_turn i s) (sync_turn-IsAfter started i s h)

spawn_all-accounts :
    {Regex : Type 0} (accounts : AccountCache) (entries : List (ConfigEntry Regex))
    → Each (HasAccount accounts) entries
    → (ws : List SyncWorker) × (spawn_all accounts entries ≡ some ws) × (syncing_count ws ≡ 0)
unfolding spawn_all
spawn_all-accounts accounts [] h = ([], refl, refl)
spawn_all-accounts accounts (entry ∷ entries) ((rs, found), h) =
    let (ws, e, none_started) = spawn_all-accounts accounts entries h in
    (spawned ∷ ws, rw (found, e, spawn_all) refl, omega (arith, none_started))

abbrev pub at_start : List SyncWorker → SyncRun
at_start ws = record { workers = ws; sync_workers = 0; waiting = false; woken = false }

-- When all entries have accounts, as after a login, the synchronisations are spawned. If each of them
-- has started when the wait begins, then, whatever happens behind that: the wait is ended by them
-- exactly if some of them were still under way at its begin, and none is left. With no entry, or if
-- all were over by then, nothing but the time limit ends it.
pub sync_all_directories-woken :
    {Regex : Type 0} (accounts : AccountCache) (entries : List (ConfigEntry Regex))
    (before after : List ℕ)
    → Each (HasAccount accounts) entries
    → ((ws : List SyncWorker)
        → spawn_all accounts entries ≡ some ws
        → spawned_count (sync_turns before (at_start ws)).workers ≡ 0)
    → (ws : List SyncWorker) × (s : SyncRun) × (spawn_all accounts entries ≡ some ws)
      × (sync_all_directories accounts entries before after ≡ some s)
      × ((s.woken ≡ true) ↔ (
          (0 < syncing_count (sync_turns before (at_start ws)).workers)
          × (syncing_count s.workers ≡ 0)))
unfolding sync_all_directories wait_for_sync
sync_all_directories-woken accounts entries before after h begun =
    let (ws, e, none_started) = spawn_all-accounts accounts entries h in
    let s = sync_turns before (at_start ws) in
    let sound =
      sync_turns-IsBefore before (at_start ws)
        (record { counted = sym none_started; waiting = refl; woken = refl }) in
    let started = syncing_count s.workers in
    let waits : IsAfter started (wait_for_sync s) = record {
      counted = sound.counted;
      to_start = begun ws e;
      waiting = refl;
      fewer = omega arith;
      woken = (
        λ w. absurd (true_not_false (sym w ∙ sound.woken)),
        λ (some_started, idle). absurd (omega (arith, some_started, idle)),
      );
    } in
    let result = sync_turns-IsAfter started after (wait_for_sync s) waits in
    (ws, sync_turns after (wait_for_sync s), e, rw (e, sync_all_directories) refl, result.woken)
