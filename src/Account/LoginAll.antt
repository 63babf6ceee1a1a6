-- ===== src/Account/LoginAll.antt =====
-- src/processes/login.cpp: two coroutines that each log in to all accounts, and the timer that waits
-- for them. `fillAccountCache` of src/AccountCache.cpp is what each of them runs.
pub mod Laws
pub mod Ends
use cdnalizerd.Base.{
  ℕ, ◌-◌, Bool, true, false, List, [], ◌∷◌, Option, none, some, ◌==◌, if◌then◌else◌, ◌||◌,
}
use cdnalizerd.Base.Text.{Text}
use cdnalizerd.Config.{ConfigEntry}
use cdnalizerd.Account.Cache.{LoginServer, AccountCache, fill_single_account_cache}

-- A coroutine: with entries to go, at its end, or left by an exception. In the program that exception
-- also ends the run of the service; here the other coroutine may have turns behind it.
pub data Coroutine (Regex : Type 0) : Type 0 where
  running : List (ConfigEntry Regex) → Coroutine Regex
  ended : Coroutine Regex
  left : Coroutine Regex

pub record Logins (Regex World : Type 0) : Type 0 where
  pub cache : AccountCache
  pub world : World
  pub first : Coroutine Regex
  pub second : Coroutine Regex
  pub login_workers : ℕ
  -- `waitForLogins.cancel(ec)` was called.
  pub cancelled : Bool

module _ {Regex : Type 0} (S : LoginServer) where
  -- What one turn of a coroutine makes of the cache, the world and itself: it logs in to its next
  -- account. `true` says that it came to its end. The connection that it makes before its first login
  -- is a part of the exchange of that login.
  unfoldable pub coroutine_turn :
      Coroutine Regex → AccountCache → S.World → AccountCache × S.World × Coroutine Regex × Bool
  unfolding fill_single_account_cache
  coroutine_turn ended cache w = (cache, w, ended, false)
  coroutine_turn left cache w = (cache, w, left, false)
  coroutine_turn (running []) cache w = (cache, w, ended, true)
  coroutine_turn (running (entry ∷ entries)) cache w =
      let (filled, w') = fill_single_account_cache S entry cache w in
      elim filled [
        | none ↦ (cache, w', left, false)
        | some cache' ↦ (cache', w', running entries, false)
      ]

  -- `onDone`
  unfoldable pub on_login_done : Bool → Logins Regex S.World → Logins Regex S.World
  on_login_done false s = s
  on_login_done true s =
      let left_workers = s.login_workers - 1 in
      record s {
        login_workers = left_workers;
        cancelled = if left_workers == 0 then true else s.cancelled;
      }

  -- A turn of the first coroutine, or of the second.
  unfoldable pub login_turn : Bool → Logins Regex S.World → Logins Regex S.World
  unfolding coroutine_turn on_login_done
  login_turn true s =
      let (cache, world, c, done) = coroutine_turn s.first s.cache s.world in
      on_login_done done (record s { cache = cache; world = world; first = c })
  login_turn false s =
      let (cache, world, c, done) = coroutine_turn s.second s.cache s.world in
      on_login_done done (record s { cache = cache; world = world; second = c })

  unfoldable pub login_turns : List Bool → Logins Regex S.World → Logins Regex S.World
  unfolding login_turn
  login_turns [] s = s
  login_turns (turn ∷ turns) s = login_turns turns (login_turn turn s)

  -- `login` up to the wait: both coroutines are spawned, over all entries.
  unfoldable pub start_login :
      List (ConfigEntry Regex) → AccountCache → S.World → Logins Regex S.World
  start_login entries cache w = record {
    cache = cache;
    world = w;
    first = running entries;
    second = running entries;
    login_workers = 2;
    cancelled = false;
  }

  -- `login`, when the scheduler gives the coroutines these turns and the timer then ends the wait:
  -- `none` is the failed assertion that no coroutine is left.
  unfoldable pub login :
      List (ConfigEntry Regex) → AccountCache → S.World → List Bool → Option AccountCache
  unfolding start_login login_turns
  login entries cache w turns =
      let s = login_turns turns (start_login entries cache w) in
      if s.login_workers == 0 then some s.cache else none
