-- ===== src/Url/Parser/Runs.antt =====
-- How the driver of src/url_parser.hpp runs over whole pieces of a URL.
use cdnalizerd.Base.{
  ℕ, suc, ◌+◌, ◌-◌, ◌<◌, ◌≡◌, refl, ◌∙◌, ap, Bool, true, List, [], ◌∷◌, ◌++◌, none, some, arith,
  ◌==◌, if◌then◌else◌, Each, length, drop-append_self, take-append_self,
}
use native.Mathlib.Nat.{add-zero}
use cdnalizerd.Base.Text.{Text, codes}
use cdnalizerd.Url.Parser.{Url, Machine, Action, act_all, slice, target, actions_on, step, run}
use cdnalizerd.Url.Parser.Grammar.{
  Place, begin, authority, state_of, state_of_ne_0, next, target-next,
}

-- The machine at a place of the grammar.
abbrev pub at_place : Place → ℕ × Url → Machine
at_place s (start, u) = record { cs = state_of s; start = start; url = u }

run_cons :
    (raw : Text) (p c : ℕ) (rest : Text) (m : Machine)
    → run raw (c ∷ rest) p m ≡ (
        if (step raw p c m).cs == 0
        then (step raw p c m, p)
        else run raw rest (suc p) (step raw p c m))
unfolding run
run_cons raw p c rest m = refl

step_lem :
    (raw : Text) (p c : ℕ) (m : Machine)
    → step raw p c m ≡ (
        let (start', url') = act_all raw p (actions_on m.cs c) m.start m.url in
        record { cs = target m.cs c; start = start'; url = url' })
unfolding step
step_lem raw p c m = refl

step_accept :
    (raw : Text) (p c : ℕ) (s q : Place) (l : List Action) (start : ℕ) (u : Url)
    → c < 256
    → next s c ≡ some (q, l)
    → step raw p c (at_place s (start, u)) ≡ at_place q (act_all raw p l start u)
step_accept raw p c s q l start u h e =
    rw (step_lem, (target-next s c h).0, (target-next s c h).1, e) refl

step_reject :
    (raw : Text) (p c : ℕ) (s : Place) (start : ℕ) (u : Url)
    → c < 256
    → next s c ≡ none
    → step raw p c (at_place s (start, u)) ≡ record { cs = 0; start = start; url = u }
unfolding act_all
step_reject raw p c s start u h e =
    rw (step_lem, (target-next s c h).0, (target-next s c h).1, e) refl

-- A byte that the grammar accepts.
pub run_accept :
    (raw : Text) (p c : ℕ) (rest : Text) (s q : Place) (l : List Action) (start : ℕ) (u : Url)
    → c < 256
    → next s c ≡ some (q, l)
    → run raw (c ∷ rest) p (at_place s (start, u))
      ≡ run raw rest (suc p) (at_place q (act_all raw p l start u))
run_accept raw p c rest s q l start u h e =
    rw (run_cons, step_accept raw p c s q l start u h e, state_of_ne_0 q) refl

-- A byte that it does not accept ends the run at its position.
pub run_reject :
    (raw : Text) (p c : ℕ) (rest : Text) (s : Place) (start : ℕ) (u : Url)
    → c < 256
    → next s c ≡ none
    → run raw (c ∷ rest) p (at_place s (start, u)) ≡ (record { cs = 0; start = start; url = u }, p)
run_reject raw p c rest s start u h e = rw (run_cons, step_reject raw p c s start u h e) refl

-- Bytes that keep the machine where it is.
pub run_many :
    (loops : ℕ → Bool) (raw : Text) (p : ℕ) (xs rest : Text) (s : Place) (start : ℕ) (u : Url)
    → ((c : ℕ) → loops c ≡ true → (c < 256) × (next s c ≡ some (s, [])))
    → Each (λ c. loops c ≡ true) xs
    → run raw (xs ++ rest) p (at_place s (start, u))
      ≡ run raw rest (p + length xs) (at_place s (start, u))
unfolding act_all
run_many loops raw p [] rest s start u keep h = rw add-zero refl
run_many loops raw p (x ∷ xs) rest s start u keep h =
    run_accept raw p x (xs ++ rest) s s [] start u (keep x h.0).0 (keep x h.0).1
    ∙ (run_many loops raw (suc p) xs rest s start u keep h.1
        ∙ ap (λ n. run raw rest n (at_place s (start, u))) (omega arith))

add_sub_left : (m n : ℕ) → m + n - m ≡ n
add_sub_left m n = omega arith

pub slice_middle : (a b c : Text) → slice (a ++ (b ++ c)) (length a) (length a + length b) ≡ b
slice_middle a b c = rw (drop-append_self a (b ++ c), add_sub_left) (take-append_self b c)

pub run_http :
    (raw rest : Text) (u : Url)
    → run raw (codes "http://" ++ rest) 0 (at_place begin (0, u))
      ≡ run raw rest 7 (at_place authority (0, u))
unfolding run
run_http raw rest u = refl

pub run_https :
    (raw rest : Text) (u : Url)
    → run raw (codes "https://" ++ rest) 0 (at_place begin (0, u))
      ≡ run raw rest 8 (at_place authority (0, u))
unfolding run
run_https raw rest u = refl
