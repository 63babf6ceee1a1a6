-- ===== src/Utf8/Rounds.antt =====
-- The loop of `utf82json` in experiments/utf8.cpp ends: the rounds that the model allows are enough.
use Prim.Native.Nat.{bit_and}
use cdnalizerd.Base.{
  ℕ, zero, suc, ◌≤◌, ◌≡◌, inl, inr, refl, [], ◌∷◌, arith, length, ◌==◌, Bool-cases, Option-cases,
  ◌*◌, ◌%◌, ◌+◌, ◌^◌,
}
use cdnalizerd.Base.Holds.{Holds, nothing, result, Holds-imp, Holds-some}
use cdnalizerd.Base.Text.{Text}
use cdnalizerd.Utf8.{read_on, handle_multi_byte_char, convert}

read_on_shrinks :
    (d r : ℕ) (t : Text) → Holds (λ (p : ℕ × Text). length p.1 ≤ length t) (read_on d r t)
unfolding read_on
read_on_shrinks zero r t = result (omega arith)
read_on_shrinks (suc d) r [] = nothing
read_on_shrinks (suc d) r (c ∷ t) =
    Holds-imp (λ p h. omega arith) (read_on_shrinks d (r * 64 % 2 ^ 32 + bit_and c 0x3f) t)

handle_shrinks :
    (c : ℕ) (t : Text)
    → Holds (λ (p : ℕ × Text). length p.1 ≤ length t) (handle_multi_byte_char c t)
unfolding handle_multi_byte_char
handle_shrinks c t = read_on_shrinks _ _ t

-- Once the fuel covers the text, more of it changes nothing.
convert-enough :
    (fuel more : ℕ) (t : Text) → length t ≤ fuel → length t ≤ more → convert fuel t ≡ convert more t
unfolding convert
convert-enough zero zero [] h k = refl
convert-enough zero (suc more) [] h k = refl
convert-enough (suc fuel) zero [] h k = refl
convert-enough (suc fuel) (suc more) [] h k = refl
convert-enough zero more (c ∷ t) h k = absurd (omega arith)
convert-enough (suc fuel) zero (c ∷ t) h k = absurd (omega arith)
convert-enough (suc fuel) (suc more) (c ∷ t) h k = elim (Bool-cases (bit_and c 0xC0 == 0xC0)) [
  | inl e ↦ elim (Option-cases (handle_multi_byte_char c t)) [
    | inl f ↦ rw (convert, e, f) refl
    | inr ((n, rest), f) ↦
        let short = Holds-some f (handle_shrinks c t) in
        rw (convert, e, f, convert-enough fuel more rest (omega arith) (omega arith)) refl
  ]
  | inr e ↦ rw (convert, e, convert-enough fuel more t (omega arith) (omega arith)) refl
]
