-- ===== src/Account/LoginAll/Laws.antt =====
-- What the turns of the logins keep: the count of coroutines, and the accounts they have passed.
use cdnalizerd.Base.{
  none_not_some, some_injective, subst, ℕ, ◌+◌, ◌≡◌, inl, inr, refl, sym, ◌∙◌, Bool, true, false,
  List, [], ◌∷◌, ◌++◌, Option, none, some, arith, Bool-cases, Option-cases, Each, Each-append,
  Each-imp, append-nil, append_assoc,
}
use cdnalizerd.Base.Text.{Text, text_eq, text_eq_refl}
use cdnalizerd.Base.Maps.{find}
use cdnalizerd.Config.{ConfigEntry}
use cdnalizerd.Account.{Rackspace}
use cdnalizerd.Account.Cache.{
  LoginServer, AccountCache, emplace_account, with_account, fill_single_account_cache,
}
use cdnalizerd.Account.LoginAll.{
  Coroutine, running, ended, left, Logins, coroutine_turn, on_login_done, login_turn, login_turns,
}

-- The cache has an account for the entry.
abbrev pub HasAccount : {Regex : Type 0} → AccountCache → ConfigEntry Regex → Type 0
HasAccount cache entry = (rs : Rackspace) × (find text_eq cache entry.username ≡ some rs)

emplace_account-HasAccount :
    {Regex : Type 0} (cache : AccountCache) (username : Text) (rs : Rackspace)
    (e : ConfigEntry Regex)
    → HasAccount cache e
    → HasAccount (emplace_account cache username rs) e
unfolding emplace_account find
emplace_account-HasAccount cache username rs e (r, h) =
    elim (Option-cases (find text_eq cache username)) [
      | inr (x, f) ↦ (r, rw (f, emplace_account) h)
      | inl f ↦ elim (Bool-cases (text_eq username e.username)) [
        | inl t ↦ (rs, rw (f, emplace_account, t, find) refl)
        | inr t ↦ (r, rw (f, emplace_account, t, find) h)
      ]
    ]

emplace_account-own :
    {Regex : Type 0} (cache : AccountCache) (rs : Rackspace) (e : ConfigEntry Regex)
    → HasAccount (emplace_account cache e.username rs) e
unfolding emplace_account find
emplace_account-own cache rs e = elim (Option-cases (find text_eq cache e.username)) [
  | inr (x, f) ↦ (x, rw (f, emplace_account) f)
  | inl f ↦ (rs, rw (f, emplace_account, text_eq_refl e.username, find) refl)
]

-- The entries that a coroutine has passed have accounts.
abbrev pub Covers :
    {Regex : Type 0} → List (ConfigEntry Regex) → AccountCache → Coroutine Regex → Type 0
Covers {Regex} entries cache (running todo) =
    (passed : List (ConfigEntry Regex)) × (entries ≡ passed ++ todo)
    × Each (HasAccount cache) passed
Covers entries cache ended = Each (HasAccount cache) entries
Covers entries cache left = Unit

-- Whether the coroutine still counts for `loginWorkers`.
abbrev pub open_count : {Regex : Type 0} → Coroutine Regex → ℕ
open_count ended = 0
open_count _ = 1

abbrev freed : Bool → ℕ
freed true = 1
freed false = 0

with_account-some :
    (cache cache' : AccountCache) (username : Text) (read : Option Rackspace)
    → with_account cache username read ≡ some cache'
    → (rs : Rackspace) × (cache' ≡ emplace_account cache username rs)
unfolding with_account
with_account-some cache cache' username none h = absurd (none_not_some h)
with_account-some cache cache' username (some rs) h = (rs, some_injective (sym h))

module _ {Regex : Type 0} (S : LoginServer) where
  fill_single_account_cache-some :
      (e : ConfigEntry Regex) (cache cache' : AccountCache) (w : S.World)
      → (fill_single_account_cache S e cache w).0 ≡ some cache'
      → (rs : Rackspace) × (cache' ≡ emplace_account cache e.username rs)
  unfolding fill_single_account_cache
  fill_single_account_cache-some e cache cache' w h = with_account-some cache cache' e.username _ h

  -- What a turn does to the coroutine and the cache.
  record Turned (entries : List (ConfigEntry Regex)) (c : Coroutine Regex) (cache : AccountCache)
      (t : AccountCache × S.World × Coroutine Regex × Bool) : Type 0 where
    kept : (e : ConfigEntry Regex) → HasAccount cache e → HasAccount t.0 e
    covers : Covers entries t.0 t.2
    counted : open_count c ≡ open_count t.2 + freed t.3

  coroutine_turn-Turned :
      (entries : List (ConfigEntry Regex)) (c : Coroutine Regex) (cache : AccountCache)
      (w : S.World)
      → Covers entries cache c
      → Turned entries c cache (coroutine_turn S c cache w)
  unfolding coroutine_turn
  coroutine_turn-Turned entries ended cache w h = record {
    kept = λ e a. a;
    covers = h;
    counted = refl;
  }
  coroutine_turn-Turned entries left cache w h = record {
    kept = λ e a. a;
    covers = tt;
    counted = refl;
  }
  coroutine_turn-Turned entries (running []) cache w (passed, split, all) = record {
    kept = λ e a. a;
    covers = subst (λ l. Each (HasAccount cache) l) (sym (split ∙ append-nil passed)) all;
    counted = refl;
  }
  coroutine_turn-Turned entries (running (e ∷ es)) cache w (passed, split, all) =
      elim (Option-cases (fill_single_account_cache S e cache w).0) [
        | inl f ↦ rw (f, coroutine_turn) (record { kept = λ x a. a; covers = tt; counted = refl })
        | inr (cache', f) ↦
            let (rs, made) = fill_single_account_cache-some e cache cache' w f in
            let kept : (x : ConfigEntry Regex) → HasAccount cache x → HasAccount cache' x =
              λ x a. rw (made) (emplace_account-HasAccount cache e.username rs x a) in
            rw (f, coroutine_turn)
              (record {
                kept = kept;
                covers = (
                  passed ++ e ∷ [],
                  split ∙ sym (append_assoc passed (e ∷ []) es),
                  Each-append (HasAccount cache') passed (e ∷ [])
                      (Each-imp (HasAccount cache) (HasAccount cache') passed kept all)
                      (rw (made) (emplace_account-own cache rs e), tt),
                );
                counted = refl;
              })
      ]

  Covers-kept :
      (entries : List (ConfigEntry Regex)) (c : Coroutine Regex) (cache cache' : AccountCache)
      → ((e : ConfigEntry Regex) → HasAccount cache e → HasAccount cache' e)
      → Covers entries cache c
      → Covers entries cache' c
  Covers-kept entries (running todo) cache cache' k (passed, split, all) =
      (passed, split, Each-imp (HasAccount cache) (HasAccount cache') passed k all)
  Covers-kept entries ended cache cache' k h =
      Each-imp (HasAccount cache) (HasAccount cache') entries k h
  Covers-kept entries left cache cache' k h = tt

  pub record IsSound (entries : List (ConfigEntry Regex)) (s : Logins Regex S.World) : Type 0 where
    pub first : Covers entries s.cache s.first
    pub second : Covers entries s.cache s.second
    pub counted : s.login_workers ≡ open_count s.first + open_count s.second

  on_login_done-IsSound :
      (entries : List (ConfigEntry Regex)) (done : Bool) (s : Logins Regex S.World)
      → Covers entries s.cache s.first
      → Covers entries s.cache s.second
      → s.login_workers ≡ open_count s.first + open_count s.second + freed done
      → IsSound entries (on_login_done S done s)
  unfolding on_login_done
  on_login_done-IsSound entries true s f g h = record {
    first = f;
    second = g;
    counted = omega arith;
  }
  on_login_done-IsSound entries false s f g h = record {
    first = f;
    second = g;
    counted = omega arith;
  }

  login_turn-IsSound :
      (entries : List (ConfigEntry Regex)) (turn : Bool) (s : Logins Regex S.World)
      → IsSound entries s
      → IsSound entries (login_turn S turn s)
  unfolding login_turn
  login_turn-IsSound entries true s h =
      let t = coroutine_turn-Turned entries s.first s.cache s.world h.first in
      let k = t.counted in
      let l = h.counted in
      on_login_done-IsSound entries _ _ t.covers (Covers-kept entries s.second _ _ t.kept h.second)
        (omega arith)
  login_turn-IsSound entries false s h =
      let t = coroutine_turn-Turned entries s.second s.cache s.world h.second in
      let k = t.counted in
      let l = h.counted in
      on_login_done-IsSound entries _ _ (Covers-kept entries s.first _ _ t.kept h.first) t.covers
        (omega arith)

  pub login_turns-IsSound :
      (entries : List (ConfigEntry Regex)) (turns : List Bool) (s : Logins Regex S.World)
      → IsSound entries s
      → IsSound entries (login_turns S turns s)
  unfolding login_turns
  login_turns-IsSound entries [] s h = h
  login_turns-IsSound entries (turn ∷ turns) s h =
      login_turns-IsSound entries turns (login_turn S turn s) (login_turn-IsSound entries turn s h)
