-- ===== src/Sync/Wait.antt =====
-- `syncAllDirectories` of src/processes/syncAllDirectories.cpp: a coroutine for each entry, their
-- count, and the timer that the main coroutine waits for. What a coroutine does between its start and
-- its end is `Sync`.
pub mod Laws
use cdnalizerd.Base.{
  ℕ, zero, suc, ◌+◌, ◌-◌, Bool, true, false, List, [], ◌∷◌, Option, none, some, ◌==◌, ◌&&◌,
  if◌then◌else◌, get_elem?, map,
}
use cdnalizerd.Base.Text.{Text, text_eq}
use cdnalizerd.Base.Maps.{find}
use cdnalizerd.Config.{ConfigEntry}
use cdnalizerd.Account.Cache.{AccountCache}

-- A coroutine: before its first line, with its `CountSentry` alive, or behind its end, by an exception
-- or not.
pub data SyncWorker : Type 0 where
  spawned syncing finished : SyncWorker

pub record SyncRun : Type 0 where
  pub workers : List SyncWorker
  pub sync_workers : ℕ
  -- The main coroutine is in `async_wait`, and a cancelled timer has ended that wait.
  pub waiting : Bool
  pub woken : Bool

unfoldable pub set_worker : List SyncWorker → ℕ → SyncWorker → List SyncWorker
set_worker [] i w = []
set_worker (v ∷ ws) zero w = w ∷ ws
set_worker (v ∷ ws) (suc i) w = v ∷ set_worker ws i w

-- The constructor of `CountSentry`.
unfoldable count_up : SyncRun → SyncRun
count_up s = record s { sync_workers = s.sync_workers + 1 }

-- Its destructor. `cancel` ends the waits that have begun, and no later ones.
unfoldable count_down : SyncRun → SyncRun
count_down s =
    let count = s.sync_workers - 1 in
    record s { sync_workers = count; woken = if count == 0 && s.waiting then true else s.woken }

-- The coroutine at a position starts, or ends.
unfoldable pub sync_turn : ℕ → SyncRun → SyncRun
unfolding set_worker count_up count_down
sync_turn i s = elim (get_elem? s.workers i) [
  | none ↦ s
  | some w ↦ elim w [
    | spawned ↦ count_up (record s { workers = set_worker s.workers i syncing })
    | syncing ↦ count_down (record s { workers = set_worker s.workers i finished })
    | finished ↦ s
  ]
]

unfoldable pub sync_turns : List ℕ → SyncRun → SyncRun
unfolding sync_turn
sync_turns [] s = s
sync_turns (i ∷ turns) s = sync_turns turns (sync_turn i s)

-- The loop over the entries; `none` is the exception of `accounts.at`.
unfoldable pub spawn_all :
    {Regex : Type 0} → AccountCache → List (ConfigEntry Regex) → Option (List SyncWorker)
unfolding find
spawn_all accounts [] = some []
spawn_all accounts (entry ∷ entries) = elim (find text_eq accounts entry.username) [
  | none ↦ none
  | some _ ↦ elim (spawn_all accounts entries) [ none ↦ none | some ws ↦ some (spawned ∷ ws) ]
]

unfoldable pub wait_for_sync : SyncRun → SyncRun
wait_for_sync s = record s { waiting = true }

-- `syncAllDirectories`, when the scheduler gives the coroutines these turns before the wait begins and
-- those after it, up to the time limit of the timer.
unfoldable pub sync_all_directories :
    {Regex : Type 0} → AccountCache → List (ConfigEntry Regex) → List ℕ → List ℕ → Option SyncRun
unfolding spawn_all sync_turns wait_for_sync
sync_all_directories accounts entries before after = elim (spawn_all accounts entries) [
  | none ↦ none
  | some ws ↦
      let started : SyncRun = record {
        workers = ws;
        sync_workers = 0;
        waiting = false;
        woken = false;
      } in
      some (sync_turns after (wait_for_sync (sync_turns before started)))
]
