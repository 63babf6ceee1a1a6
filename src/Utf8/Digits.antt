-- ===== src/Utf8/Digits.antt =====
-- `hex` of experiments/utf8.cpp: the digits it writes are those of the number, without leading zeros.
use cdnalizerd.Base.{
  ℕ, zero, suc, ◌+◌, ◌-◌, ◌*◌, ◌/◌, ◌%◌, ◌^◌, ◌≤◌, ◌<◌, ◌≡◌, ◌↔◌, refl, ap, sym, ◌∙◌, Bool, true,
  false, ◌&&◌, inl, inr, [], ◌∷◌, arith, ltb, length, ◌==◌, if◌then◌else◌, Bool-cases,
}
use native.Mathlib.Nat.{
  add-mul-mod_self_left, mod-eq_of_lt, mod-lt, div-add-mod', mul-le-mul_right, pow-le-pow_right,
  div-eq_of_lt, div-lt_iff_lt-mul, le-div_iff_mul-le, mod-one, pow-succ',
}
use native.Mathlib.Decide.{dec_lt}
use cdnalizerd.Base.Text.{Text}
use cdnalizerd.Utf8.{hex_digit, hex_from, hex}

-- A digit read back.
abbrev digit_value : ℕ → ℕ
digit_value c = if ltb c b'A' then c - b'0' else c - b'A' + 10

-- Digits read behind a number.
unfoldable pub value : ℕ → Text → ℕ
value n [] = n
value n (c ∷ t) = value (n * 16 + digit_value c) t

value-hex_digit : (d : ℕ) → d < 16 → digit_value (hex_digit d) ≡ d
unfolding hex_digit
value-hex_digit d h = ground arith

sixteen_up : (k : ℕ) → 16 ^ suc k ≡ 16 * 16 ^ k
sixteen_up k = pow-succ' 16 k

sixteen_pos : (k : ℕ) → 0 < 16 ^ k
sixteen_pos k = pow-le-pow_right {n = 16} (omega arith) {i = 0} {j = k} (omega arith)

powers : (i j : ℕ) → i ≤ j → 16 ^ i ≤ 16 ^ j
powers i j h = pow-le-pow_right {n = 16} (omega arith) h

-- The last `k` digits and one more.
digit_split : (n p : ℕ) → 0 < p → n % (16 * p) ≡ n / p % 16 * p + n % p
digit_split n p pos =
    let q = n / p in
    let low = q % 16 * p + n % p in
    let small : low < 16 * p =
      omega (arith, mul-le-mul_right p (less (mod-lt q {m = 16} (omega arith))), mod-lt n pos) in
    let whole : low + 16 * p * (q / 16) ≡ n =
      omega (arith, ap (λ (t : ℕ). t * p) (div-add-mod' q 16), div-add-mod' n p) in
    ap (λ (t : ℕ). t % (16 * p)) (sym whole)
    ∙ add-mul-mod_self_left low (16 * p) (q / 16)
    ∙ mod-eq_of_lt small
  where
    less : {a : ℕ} → a < 16 → a ≤ 15
    less h = omega arith

-- A round that writes a digit, and one that does not.
write :
    (k n : ℕ) (still_zero : Bool)
    → (still_zero && (n / 16 ^ k % 16 == 0)) ≡ false
    → hex_from (suc k) still_zero n ≡ hex_digit (n / 16 ^ k % 16) ∷ hex_from k false n
unfolding hex_from
write k n still_zero h = ground arith

skip : (k n : ℕ) → n / 16 ^ k % 16 ≡ 0 → hex_from (suc k) true n ≡ hex_from k true n
unfolding hex_from
skip k n h = ground arith

value_write :
    (k n acc : ℕ) (t : Text)
    → value (acc * 16 + n / 16 ^ k % 16) t ≡ (acc * 16 + n / 16 ^ k % 16) * 16 ^ k + n % 16 ^ k
    → value acc (hex_digit (n / 16 ^ k % 16) ∷ t) ≡ acc * 16 ^ suc k + n % 16 ^ suc k
unfolding value
value_write k n acc t h =
    ap (λ (d : ℕ). value (acc * 16 + d) t)
      (value-hex_digit _ (mod-lt (n / 16 ^ k) {m = 16} (omega arith)))
    ∙ h
    ∙ omega (
      arith,
      sixteen_up k,
      ap (λ (p : ℕ). acc * p) (sixteen_up k),
      ap (λ (p : ℕ). n % p) (sixteen_up k),
      digit_split n (16 ^ k) (sixteen_pos k),
    )

value_going : (k n acc : ℕ) → value acc (hex_from k false n) ≡ acc * 16 ^ k + n % 16 ^ k
unfolding hex_from value
value_going zero n acc = omega (arith, mod-one n)
value_going (suc k) n acc =
    ap (value acc) (write k n false refl)
    ∙ value_write k n acc (hex_from k false n) (value_going k n (acc * 16 + n / 16 ^ k % 16))

value_still : (k n : ℕ) → value 0 (hex_from k true n) ≡ n % 16 ^ k
unfolding hex_from value
value_still zero n = omega (arith, mod-one n)
value_still (suc k) n = elim (Bool-cases (n / 16 ^ k % 16 == 0)) [
  | inl e ↦
      ap (value 0) (skip k n (ground arith))
      ∙ value_still k n
      ∙ omega (
        arith,
        digit_split n (16 ^ k) (sixteen_pos k),
        ap (λ (p : ℕ). n % p) (sixteen_up k),
        ap (λ (d : ℕ). d * 16 ^ k) (zero_digit k n e),
      )
  | inr e ↦
      ap (value 0) (write k n true e)
      ∙ value_write k n 0 (hex_from k false n) (value_going k n (0 * 16 + n / 16 ^ k % 16))
      ∙ omega (arith, no_product (16 ^ suc k))
]
  where
    no_product : (p : ℕ) → 0 * p ≡ 0
    no_product p = omega arith

    zero_digit : (k n : ℕ) → (n / 16 ^ k % 16 == 0) ≡ true → n / 16 ^ k % 16 ≡ 0
    zero_digit k n e = ground arith

length_going : (k n : ℕ) → length (hex_from k false n) ≡ k
unfolding hex_from
length_going zero n = refl
length_going (suc k) n = ap length (write k n false refl) ∙ ap suc (length_going k n)

first_digit : (m n : ℕ) → n < 16 ^ suc m → n / 16 ^ m < 16
first_digit m n h = (div-lt_iff_lt-mul (sixteen_pos m)).1 (omega (arith, sixteen_up m))

-- A number below a power of sixteen starts with a zero, and any other with another digit.
length_skip : (m n : ℕ) → n < 16 ^ m → length (hex_from (suc m) true n) ≡ length (hex_from m true n)
length_skip m n h = ap length (skip m n (ap (λ (q : ℕ). q % 16) (div-eq_of_lt h)))

length_write : (m n : ℕ) → 16 ^ m ≤ n → n < 16 ^ suc m → length (hex_from (suc m) true n) ≡ suc m
length_write m n h l =
    let positive : 1 ≤ n / 16 ^ m = (le-div_iff_mul-le (sixteen_pos m)).1 (omega arith) in
    let small = first_digit m n l in
    ap length (write m n true (ground arith)) ∙ ap suc (length_going m n)

length_still : (m k n : ℕ) → n < 16 ^ m → k ≤ m → (length (hex_from m true n) ≤ k) ↔ (n < 16 ^ k)
unfolding hex_from
length_still zero k n h l = (λ e. omega (arith, sixteen_pos k), λ e. omega arith)
length_still (suc m) k n h l = elim (dec_lt n (16 ^ m)) [
  | yes b ↦ elim (dec_lt m k) [
    | yes top ↦ (
      λ e. omega (arith, powers m k (omega arith)),
      λ e. omega (arith, length_skip m n b, (length_still m m n b (omega arith)).1 b),
    )
    | no low ↦
        let (f, g) = length_still m k n b (omega arith) in
        (λ e. f (omega (arith, length_skip m n b)), λ e. omega (arith, length_skip m n b, g e))
  ]
  | no b ↦ (
    λ e. omega (
      arith,
      length_write m n (omega arith) h,
      powers (suc m) k (omega (arith, length_write m n (omega arith) h)),
    ),
    λ e. elim (dec_lt m k) [
      | yes top ↦ omega (arith, length_write m n (omega arith) h)
      | no low ↦ absurd (omega (arith, powers k m (omega arith)))
    ],
  )
]

-- For a number of 32 bits, the digits that `hex` writes read back as the number.
pub value-hex : (n : ℕ) → n < 2 ^ 32 → value 0 (hex n) ≡ n
unfolding hex
value-hex n h = value_still 8 n ∙ mod-eq_of_lt (omega arith)

-- For a number of 32 bits and up to eight digits: `hex` writes at most that many digits exactly if the
-- number is below that power of sixteen. So it pads nothing: 0 has no digit at all.
pub length-hex : (k n : ℕ) → k ≤ 8 → n < 2 ^ 32 → (length (hex n) ≤ k) ↔ (n < 16 ^ k)
unfolding hex
length-hex k n b h = length_still 8 k n (omega arith) b
