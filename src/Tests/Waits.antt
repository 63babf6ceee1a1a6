-- ===== src/Tests/Waits.antt =====
-- The wait for the synchronisation of one entry.
use cdnalizerd.Base.{
  some_injective, ◌∙◌, ◌≡◌, ◌<◌, ◌↔◌, ap, sym, subst, refl, true, [], ◌∷◌, List, some,
}
use cdnalizerd.Base.Text.{text_eq}
use cdnalizerd.Account.Cache.{AccountCache}
use cdnalizerd.Account.LoginAll.Laws.{HasAccount}
use cdnalizerd.Sync.Wait.{SyncWorker, SyncRun, spawned, spawn_all, sync_turns, sync_all_directories}
use cdnalizerd.Sync.Wait.Laws.{at_start, spawned_count, syncing_count, sync_all_directories-woken}
use cdnalizerd.Tests.Logins.{account}
use cdnalizerd.Tests.Watches.{entry}

abbrev accounts : AccountCache
accounts = (entry.username, account) ∷ []

one_spawned : spawn_all accounts (entry ∷ []) ≡ some (spawned ∷ [])
unfolding spawn_all text_eq
one_spawned = refl

one_started : spawned_count (sync_turns (0 ∷ []) (at_start (spawned ∷ []))).workers ≡ 0
unfolding sync_turns
one_started = refl

entry-HasAccount : HasAccount accounts entry
unfolding cdnalizerd.Base.Maps.find text_eq
entry-HasAccount = (account, refl)

sync_all_directories-woken_example :
    (ws : List SyncWorker) × (s : SyncRun) × (spawn_all accounts (entry ∷ []) ≡ some ws)
    × (sync_all_directories accounts (entry ∷ []) (0 ∷ []) (0 ∷ []) ≡ some s)
    × ((s.woken ≡ true) ↔ (
        (0 < syncing_count (sync_turns (0 ∷ []) (at_start ws)).workers)
        × (syncing_count s.workers ≡ 0)))
sync_all_directories-woken_example =
    sync_all_directories-woken accounts (entry ∷ []) (0 ∷ []) (0 ∷ []) (entry-HasAccount, tt)
      (λ ws e.
        subst (λ l. spawned_count (sync_turns (0 ∷ []) (at_start l)).workers ≡ 0)
          (some_injective (sym one_spawned ∙ e)) one_started)
