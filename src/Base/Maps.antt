-- ===== src/Base/Maps.antt =====
-- `std::map` as an association list: lookup, removal and assignment, with their laws.
use mathlib.Core.Path.{◌≡◌, refl, sym, ap, ◌∙◌}
use mathlib.Core.Logic.{◌≢◌, inl, inr}
use mathlib.Core.Bool.{Bool, true, false}
use mathlib.Core.List.{List, [], ◌∷◌}
use mathlib.Core.Option.{Option, none, some}
use cdnalizerd.Base.Tests.{if◌then◌else◌, Bool-cases, ◌==◌, ==_iff}
use cdnalizerd.Base.Text.{text_eq, text_eq→eq, eq→text_eq}

module _ {K V : Type 0} (key_eq : K → K → Bool) where
  -- `find` and `at`.
  unfoldable pub find : List (K × V) → K → Option V
  find [] k = none
  find ((i, v) ∷ m) k = if key_eq i k then some v else find m k

  unfoldable pub erase : List (K × V) → K → List (K × V)
  erase [] k = []
  erase ((i, v) ∷ m) k = let rest = erase m k in if key_eq i k then rest else (i, v) ∷ rest

  -- `m[k] = v`
  unfoldable pub assign : List (K × V) → K → V → List (K × V)
  assign [] k v = (k, v) ∷ []
  assign ((i, u) ∷ m) k v =
      let rest = assign m k v in if key_eq i k then (i, v) ∷ m else (i, u) ∷ rest

-- A test that decides equality.
pub record IsEquality {K : Type 0} (key_eq : K → K → Bool) : Type 0 where
  pub sound : (i k : K) → key_eq i k ≡ true → i ≡ k
  pub complete : (i k : K) → i ≡ k → key_eq i k ≡ true

pub text_eq-IsEquality : IsEquality text_eq
text_eq-IsEquality = record { sound = text_eq→eq; complete = eq→text_eq }

pub ==_IsEquality : IsEquality ◌==◌
==_IsEquality = record { sound = λ i k. (==_iff i k).0; complete = λ i k. (==_iff i k).1 }

module _ {K : Type 0} {key_eq : K → K → Bool} (law : IsEquality key_eq) where
  pub unequal : (i k : K) → i ≢ k → key_eq i k ≡ false
  unequal i k h = elim (Bool-cases (key_eq i k)) [
    | inl e ↦ absurd (h (law.sound i k e))
    | inr e ↦ e
  ]

module _ {K V : Type 0} {key_eq : K → K → Bool} (law : IsEquality key_eq) where
  pub find-erase_same : (m : List (K × V)) (k : K) → find key_eq (erase key_eq m k) k ≡ none
  unfolding find erase
  find-erase_same [] k = refl
  find-erase_same ((i, v) ∷ m) k = elim (Bool-cases (key_eq i k)) [
    | inl e ↦ rw (e, erase) (find-erase_same m k)
    | inr e ↦ rw (e, erase, e, find) (find-erase_same m k)
  ]

  pub find-erase_other :
      (m : List (K × V)) (k j : K) → j ≢ k → find key_eq (erase key_eq m k) j ≡ find key_eq m j
  unfolding find erase
  find-erase_other [] k j h = refl
  find-erase_other ((i, v) ∷ m) k j h = elim (Bool-cases (key_eq i k)) [
    | inl e ↦
        let other = unequal law i j (λ p. h (sym p ∙ law.sound i k e)) in
        rw (e, other) (find-erase_other m k j h)
    | inr e ↦ rw e (ap (λ o. if key_eq i j then some v else o) (find-erase_other m k j h))
  ]

  pub find-assign_same :
      (m : List (K × V)) (k : K) (v : V) → find key_eq (assign key_eq m k v) k ≡ some v
  unfolding find assign
  find-assign_same [] k v = rw (law.complete k k refl) refl
  find-assign_same ((i, u) ∷ m) k v = elim (Bool-cases (key_eq i k)) [
    | inl e ↦ rw (e, e) refl
    | inr e ↦ rw (e, e) (find-assign_same m k v)
  ]

  pub find-assign_other :
      (m : List (K × V)) (k j : K) (v : V)
      → j ≢ k
      → find key_eq (assign key_eq m k v) j ≡ find key_eq m j
  unfolding find assign
  find-assign_other [] k j v h = rw (unequal law k j (λ p. h (sym p))) refl
  find-assign_other ((i, u) ∷ m) k j v h = elim (Bool-cases (key_eq i k)) [
    | inl e ↦ let other = unequal law i j (λ p. h (sym p ∙ law.sound i k e)) in rw (e, other) refl
    | inr e ↦ rw e (ap (λ o. if key_eq i j then some u else o) (find-assign_other m k j v h))
  ]
