-- ===== src/Account/LoginAll/Ends.antt =====
-- The end of `login` of src/processes/login.cpp, under any order of turns.
use cdnalizerd.Base.{
  none_not_some, some_injective, subst, ℕ, suc, ◌<◌, ◌≡◌, refl, sym, ap, ◌∙◌, Bool, true, false,
  List, [], ◌∷◌, some, arith, length, ◌==◌, ==_iff, Bool-cases, Each, inl, inr,
}
use cdnalizerd.Config.{ConfigEntry}
use cdnalizerd.Account.{Rackspace}
use cdnalizerd.Account.Cache.{
  LoginServer, AccountCache, emplace_account, fill_single_account_cache, with_account,
  login_request, login_host, read_account,
}
use cdnalizerd.Account.LoginAll.{
  Coroutine, running, ended, left, Logins, coroutine_turn, on_login_done, login_turn, login_turns,
  start_login, login,
}
use cdnalizerd.Account.LoginAll.Laws.{HasAccount, Covers, open_count, IsSound, login_turns-IsSound}

-- The turns of one of the two coroutines.
abbrev turns_of : Bool → List Bool → ℕ
turns_of which [] = 0
turns_of true (true ∷ turns) = suc (turns_of true turns)
turns_of true (false ∷ turns) = turns_of true turns
turns_of false (true ∷ turns) = turns_of false turns
turns_of false (false ∷ turns) = suc (turns_of false turns)

module _ {Regex : Type 0} (S : LoginServer) where
  -- The server gives an account for each of the entries, whenever it is asked.
  abbrev pub Answers : List (ConfigEntry Regex) → Type 0
  Answers entries =
      Each
        (λ e.
          (w : S.World)
          → (rs : Rackspace) × (read_account S (S.exchange (login_request S login_host e) w).0
              ≡ some rs))
        entries

  Covers-ended :
      (entries : List (ConfigEntry Regex)) (cache : AccountCache) (c : Coroutine Regex)
      → open_count c ≡ 0
      → Covers entries cache c
      → Each (HasAccount cache) entries
  Covers-ended entries cache (running todo) h f = absurd (omega arith)
  Covers-ended entries cache ended h f = f
  Covers-ended entries cache left h f = absurd (omega arith)

  start_login-IsSound :
      (entries : List (ConfigEntry Regex)) (cache : AccountCache) (w : S.World)
      → IsSound S entries (start_login S entries cache w)
  unfolding start_login
  start_login-IsSound entries cache w = record {
    first = ([], refl, tt);
    second = ([], refl, tt);
    counted = refl;
  }

  -- Whatever the order of the turns of the two coroutines, and also when logins fail: when `login`
  -- comes to its end, the cache has an account for each of the entries.
  pub login-HasAccount :
      (entries : List (ConfigEntry Regex)) (cache cache' : AccountCache) (w : S.World)
      (turns : List Bool)
      → login S entries cache w turns ≡ some cache'
      → Each (HasAccount cache') entries
  unfolding login
  login-HasAccount entries cache cache' w turns h =
      let s = login_turns S turns (start_login S entries cache w) in
      let sound =
        login_turns-IsSound S entries turns (start_login S entries cache w)
          (start_login-IsSound entries cache w) in
      elim (Bool-cases (s.login_workers == 0)) [
        | inl t ↦
            let none_left = (==_iff s.login_workers 0).0 t in
            let counted = sound.counted in
            subst (λ c. Each (HasAccount c) entries) (some_injective (sym (rw (t) refl) ∙ h))
              (Covers-ended entries s.cache s.first (omega arith) sound.first)
        | inr t ↦ absurd (none_not_some (sym (rw (t) refl) ∙ h))
      ]

  -- The coroutine was not left by an exception, has this many turns to go at most, and its logins
  -- succeed.
  abbrev IsWithin : ℕ → Coroutine Regex → Type 0
  IsWithin n (running todo) = (length todo < n) × Answers todo
  IsWithin n ended = Unit
  IsWithin n left = ⊥

  fill_single_account_cache-Answers :
      (e : ConfigEntry Regex) (cache : AccountCache) (w : S.World)
      → Answers (e ∷ [])
      → (cache' : AccountCache) × ((fill_single_account_cache S e cache w).0 ≡ some cache')
  unfolding fill_single_account_cache with_account
  fill_single_account_cache-Answers e cache w (answers, _) =
      let (rs, h) = answers w in
      (emplace_account cache e.username rs, ap (with_account cache e.username) h)

  coroutine_turn-IsWithin :
      (n : ℕ) (c : Coroutine Regex) (cache : AccountCache) (w : S.World)
      → IsWithin (suc n) c
      → IsWithin n (coroutine_turn S c cache w).2
  unfolding coroutine_turn
  coroutine_turn-IsWithin n ended cache w h = tt
  coroutine_turn-IsWithin n left cache w h = h
  coroutine_turn-IsWithin n (running []) cache w h = tt
  coroutine_turn-IsWithin n (running (e ∷ es)) cache w (short, answers) =
      let (cache', f) = fill_single_account_cache-Answers e cache w (answers.0, tt) in
      rw (f, coroutine_turn) (omega arith, answers.1)

  on_login_done-coroutines :
      (done : Bool) (s : Logins Regex S.World)
      → ((on_login_done S done s).first ≡ s.first) × ((on_login_done S done s).second ≡ s.second)
  unfolding on_login_done
  on_login_done-coroutines true s = (refl, refl)
  on_login_done-coroutines false s = (refl, refl)

  login_turns-IsWithin :
      (turns : List Bool) (s : Logins Regex S.World)
      → IsWithin (turns_of true turns) s.first
      → IsWithin (turns_of false turns) s.second
      → IsWithin 0 (login_turns S turns s).first × IsWithin 0 (login_turns S turns s).second
  unfolding login_turns login_turn
  login_turns-IsWithin [] s f g = (f, g)
  login_turns-IsWithin (true ∷ turns) s f g =
      let t = coroutine_turn S s.first s.cache s.world in
      let (one, two) =
        on_login_done-coroutines t.3 (record s { cache = t.0; world = t.1; first = t.2 }) in
      login_turns-IsWithin turns (login_turn S true s)
        (subst (IsWithin (turns_of true turns)) (sym one)
          (coroutine_turn-IsWithin (turns_of true turns) s.first s.cache s.world f))
        (subst (IsWithin (turns_of false turns)) (sym two) g)
  login_turns-IsWithin (false ∷ turns) s f g =
      let t = coroutine_turn S s.second s.cache s.world in
      let (one, two) =
        on_login_done-coroutines t.3 (record s { cache = t.0; world = t.1; second = t.2 }) in
      login_turns-IsWithin turns (login_turn S false s)
        (subst (IsWithin (turns_of true turns)) (sym one) f)
        (subst (IsWithin (turns_of false turns)) (sym two)
          (coroutine_turn-IsWithin (turns_of false turns) s.second s.cache s.world g))

  open_count-IsWithin : (c : Coroutine Regex) → IsWithin 0 c → open_count c ≡ 0
  open_count-IsWithin (running todo) h = absurd (omega arith)
  open_count-IsWithin ended h = refl
  open_count-IsWithin left h = absurd h

  -- When the server gives an account for each of the entries, and each of the two coroutines gets more
  -- turns than there are entries, in any order: `login` comes to its end, its assertion holds, and the
  -- cache has an account for each of the entries.
  pub login-ends :
      (entries : List (ConfigEntry Regex)) (cache : AccountCache) (w : S.World) (turns : List Bool)
      → Answers entries
      → length entries < turns_of true turns
      → length entries < turns_of false turns
      → (cache' : AccountCache) × (login S entries cache w turns ≡ some cache')
        × Each (HasAccount cache') entries
  unfolding login start_login
  login-ends entries cache w turns answers f g =
      let s = login_turns S turns (start_login S entries cache w) in
      let sound =
        login_turns-IsSound S entries turns (start_login S entries cache w)
          (start_login-IsSound entries cache w) in
      let (one, two) =
        login_turns-IsWithin turns (start_login S entries cache w) (f, answers) (g, answers) in
      let first = open_count-IsWithin s.first one in
      let second = open_count-IsWithin s.second two in
      let counted = sound.counted in
      let done : (s.login_workers == 0) ≡ true = (==_iff s.login_workers 0).1 (omega arith) in
      let result : login S entries cache w turns ≡ some s.cache = rw (done) refl in
      (s.cache, result, login-HasAccount entries cache s.cache w turns result)
