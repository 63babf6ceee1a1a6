-- ===== src/Utf8/Multibyte.antt =====
-- `handleMultiByteChar` of experiments/utf8.cpp, against the chart in its comment.
use Prim.Native.Nat.{bit_and}
use cdnalizerd.Base.{
  ℕ, zero, suc, ◌+◌, ◌-◌, ◌*◌, ◌/◌, ◌%◌, ◌^◌, ◌≤◌, ◌<◌, ◌≡◌, refl, ap, sym, ◌∙◌, Bool, true, ◌&&◌,
  [], ◌∷◌, ◌++◌, append_assoc, none, some, arith, ltb, leb, length, length-append, ◌⊎◌, inl, inr,
  ◌==◌, if◌then◌else◌, holds_below, holds_below-at,
}
use native.Mathlib.Nat.{pow-succ', div-div-eq-div-mul}
use native.Mathlib.Decide.{dec_lt}
use cdnalizerd.Base.Text.{Text}
use cdnalizerd.Utf8.{find_mask, read_on, handle_multi_byte_char}

-- The bytes behind the first of a character: 10xxxxxx, six bits each.
abbrev pub tails : ℕ → ℕ → Text
tails zero n = []
tails (suc k) n = tails k (n / 64) ++ (0x80 + n % 64) ∷ []

-- The chart.
unfoldable pub encode : ℕ → Text
encode n =
    if ltb n 0x80
    then n ∷ []
    else if ltb n 0x800
    then (0xC0 + n / 64) ∷ tails 1 n
    else if ltb n 0x10000
    then (0xE0 + n / 64 ^ 2) ∷ tails 2 n
    else if ltb n 0x200000
    then (0xF0 + n / 64 ^ 3) ∷ tails 3 n
    else if ltb n 0x4000000
    then (0xF8 + n / 64 ^ 4) ∷ tails 4 n
    else (0xFC + n / 64 ^ 5) ∷ tails 5 n

-- What the first byte of `width` bytes says, from `low` up to `high`.
abbrev lead_test : ℕ → ℕ → ℕ → ℕ → Bool
lead_test width low high c =
    let (digits, mask) = find_mask 6 c 6 0xFC in
    if leb low c && ltb c high
    then (digits == width) && (bit_and c (255 - mask) == c - low) && (bit_and c 0xC0 == 0xC0)
    else true

low_six : (b : ℕ) → b < 64 → bit_and (0x80 + b) 0x3f ≡ b
unfolding holds_below
low_six b h = same (holds_below-at 64 (λ c. bit_and (0x80 + c) 0x3f == c) b refl h)
  where
    same : {m n : ℕ} → (m == n) ≡ true → m ≡ n
    same e = ground arith

num_eq : (m n : ℕ) → m ≡ n → m ≡ n
num_eq m n e = e

-- Behind the bits above them, the bytes give the whole number.
read_tails :
    (k j n : ℕ) (rest : Text)
    → n < 2 ^ 32
    → read_on (k + j) (n / 64 ^ k) (tails k n ++ rest) ≡ read_on j n rest
unfolding read_on
read_tails zero j n rest h =
    ap (λ d. read_on d (n / 1) rest) (num_eq (0 + j) j (omega arith))
    ∙ ap (λ v. read_on j v rest) (num_eq (n / 1) n (omega arith))
read_tails (suc k) j n rest h =
    ap (λ v. read_on (suc k + j) v (tails (suc k) n ++ rest))
      (ap (λ (p : ℕ). n / p) (pow-succ' 64 k) ∙ sym (div-div-eq-div-mul n 64 (64 ^ k)))
    ∙ ap (λ d. read_on d (n / 64 / 64 ^ k) (tails (suc k) n ++ rest))
        (num_eq (suc k + j) (k + suc j) (omega arith))
    ∙ ap (read_on (k + suc j) (n / 64 / 64 ^ k))
        (append_assoc (tails k (n / 64)) ((0x80 + n % 64) ∷ []) rest)
    ∙ read_tails k (suc j) (n / 64) ((0x80 + n % 64) ∷ rest) (omega arith)
    ∙ ap (λ v. read_on j v rest)
        (num_eq (n / 64 * 64 % 2 ^ 32 + bit_and (0x80 + n % 64) 0x3f) n
          (omega (arith, low_six (n % 64) (omega arith))))

read_short : (d r : ℕ) (t : Text) → length t < d → read_on d r t ≡ none
unfolding read_on
read_short zero r t h = absurd (omega arith)
read_short (suc d) r [] h = refl
read_short (suc d) r (c ∷ t) h = read_short d (r * 64 % 2 ^ 32 + bit_and c 0x3f) t (omega arith)

-- A character of `suc k` bytes, the first of them with the bits from `low` on.
abbrev Leads : ℕ → ℕ → ℕ → Type 0
Leads k low x =
    ((find_mask 6 (low + x) 6 0xFC).0 ≡ suc k)
    × (bit_and (low + x) (255 - (find_mask 6 (low + x) 6 0xFC).1) ≡ x)
    × (bit_and (low + x) 0xC0 ≡ 0xC0)

Leads-at :
    (k low high : ℕ)
    → holds_below 256 (lead_test (suc k) low high) ≡ true
    → high ≤ 256
    → (x : ℕ) → low + x < high
    → Leads k low x
Leads-at k low high all b x h =
    let at = holds_below-at 256 (lead_test (suc k) low high) (low + x) all (omega arith) in
    (ground arith, ground arith, ground arith)

handle_lead :
    (k low x : ℕ) (t : Text) → Leads k low x → handle_multi_byte_char (low + x) t ≡ read_on k x t
unfolding handle_multi_byte_char
handle_lead k low x t (digits, bits, top) =
    rw (digits, bits) (ap (λ d. read_on d x t) (num_eq (suc k - 1) k (omega arith)))

-- The first byte of a character, its other bytes, and how they are read.
pub record IsRead (n : ℕ) : Type 0 where
  pub lead : ℕ
  pub more : Text
  pub encoding : encode n ≡ lead ∷ more
  pub top : bit_and lead 0xC0 ≡ 0xC0
  pub read : (rest : Text) → handle_multi_byte_char lead (more ++ rest) ≡ some (n, rest)
  pub truncated : (t : Text) → length t < length more → handle_multi_byte_char lead t ≡ none

length-tails : (k n : ℕ) → length (tails k n) ≡ k
length-tails zero n = refl
length-tails (suc k) n =
    omega (arith, length-append (tails k (n / 64)) ((0x80 + n % 64) ∷ []), length-tails k (n / 64))

IsRead-lead :
    (k low n : ℕ)
    → encode n ≡ (low + n / 64 ^ k) ∷ tails k n
    → n < 2 ^ 31
    → Leads k low (n / 64 ^ k)
    → IsRead n
unfolding read_on
IsRead-lead k low n e h leads = record {
  lead = low + n / 64 ^ k;
  more = tails k n;
  encoding = e;
  top = leads.2;
  read = λ rest.
      handle_lead k low (n / 64 ^ k) (tails k n ++ rest) leads
      ∙ ap (λ d. read_on d (n / 64 ^ k) (tails k n ++ rest)) (num_eq k (k + 0) (omega arith))
      ∙ read_tails k 0 n rest (omega arith);
  truncated = λ t short.
      handle_lead k low (n / 64 ^ k) t leads
      ∙ read_short k (n / 64 ^ k) t (omega (arith, length-tails k n));
}

-- The first bytes of two to six, each checked by evaluation.
two_bytes : holds_below 256 (lead_test 2 0xC0 0xE0) ≡ true
unfolding holds_below find_mask
two_bytes = refl

three_bytes : holds_below 256 (lead_test 3 0xE0 0xF0) ≡ true
unfolding holds_below find_mask
three_bytes = refl

four_bytes : holds_below 256 (lead_test 4 0xF0 0xF8) ≡ true
unfolding holds_below find_mask
four_bytes = refl

five_bytes : holds_below 256 (lead_test 5 0xF8 0xFC) ≡ true
unfolding holds_below find_mask
five_bytes = refl

six_bytes : holds_below 256 (lead_test 6 0xFC 0xFE) ≡ true
unfolding holds_below find_mask
six_bytes = refl

abbrev Widths : ℕ → Type 0
Widths n =
    ((0x80 ≤ n) × (n < 0x800))
    ⊎ (((0x800 ≤ n) × (n < 0x10000))
        ⊎ (((0x10000 ≤ n) × (n < 0x200000))
            ⊎ (((0x200000 ≤ n) × (n < 0x4000000)) ⊎ ((0x4000000 ≤ n) × (n < 2 ^ 31)))))

widths : (n : ℕ) → 0x80 ≤ n → n < 2 ^ 31 → Widths n
widths n low high = elim (dec_lt n 0x800) [
  | yes a ↦ inl (low, a)
  | no a ↦ elim (dec_lt n 0x10000) [
    | yes b ↦ inr (inl (omega arith, b))
    | no b ↦ elim (dec_lt n 0x200000) [
      | yes c ↦ inr (inr (inl (omega arith, c)))
      | no c ↦ elim (dec_lt n 0x4000000) [
        | yes d ↦ inr (inr (inr (inl (omega arith, d))))
        | no d ↦ inr (inr (inr (inr (omega arith, high))))
      ]
    ]
  ]
]

pub encode-IsRead : (n : ℕ) → 0x80 ≤ n → n < 2 ^ 31 → IsRead n
unfolding encode
encode-IsRead n low high = elim (widths n low high) [
  | inl (a, b) ↦
      IsRead-lead 1 0xC0 n (ground arith) high
        (Leads-at 1 0xC0 0xE0 two_bytes (omega arith) (n / 64) (omega arith))
  | inr (inl (a, b)) ↦
      IsRead-lead 2 0xE0 n (ground arith) high
        (Leads-at 2 0xE0 0xF0 three_bytes (omega arith) (n / 64 ^ 2) (omega arith))
  | inr (inr (inl (a, b))) ↦
      IsRead-lead 3 0xF0 n (ground arith) high
        (Leads-at 3 0xF0 0xF8 four_bytes (omega arith) (n / 64 ^ 3) (omega arith))
  | inr (inr (inr (inl (a, b)))) ↦
      IsRead-lead 4 0xF8 n (ground arith) high
        (Leads-at 4 0xF8 0xFC five_bytes (omega arith) (n / 64 ^ 4) (omega arith))
  | inr (inr (inr (inr (a, b)))) ↦
      IsRead-lead 5 0xFC n (ground arith) high
        (Leads-at 5 0xFC 0xFE six_bytes (omega arith) (n / 64 ^ 5) (omega arith))
]
