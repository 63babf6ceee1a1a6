-- ===== src/Inotify/Buffer/Bytes.antt =====
-- Events as the bytes that the kernel writes, read back from the buffer of src/inotify.hpp.
use cdnalizerd.Base.{
  ℕ, zero, suc, ◌+◌, ◌*◌, ◌/◌, ◌%◌, ◌^◌, ◌≤◌, ◌<◌, ◌≡◌, refl, sym, ap, ◌∙◌, List, [], ◌∷◌, ◌++◌,
  some, arith, length, replicate, Each, length-append, append_assoc,
}
use cdnalizerd.Base.Text.{Text}
use cdnalizerd.Inotify.{Event}
use cdnalizerd.Inotify.Buffer.{word_at, copy_name, event_size, front_event}

-- An event as the kernel writes it: the name, padded with zeros.
pub record KernelEvent : Type 0 where
  pub wd : ℕ
  pub mask : ℕ
  pub cookie : ℕ
  pub name : Text
  pub padding : ℕ

abbrev pub event_of : KernelEvent → Event
event_of e = record { wd = e.wd; mask = e.mask; cookie = e.cookie; name = e.name }

-- Of an event that has a name: the words fit, the name has no zero, and at least one zero ends it.
pub record IsNamed (e : KernelEvent) : Type 0 where
  pub wd_fits : e.wd < 2 ^ 32
  pub mask_fits : e.mask < 2 ^ 32
  pub cookie_fits : e.cookie < 2 ^ 32
  pub name_fits : length e.name + e.padding ≤ 256
  pub no_zero : Each (λ c. 0 < c) e.name
  pub padded : 0 < e.padding

abbrev word : ℕ → Text
word n = (n % 256) ∷ (n / 256 % 256) ∷ (n / 65536 % 256) ∷ (n / 16777216 % 256) ∷ []

abbrev header : KernelEvent → Text
header e = word e.wd ++ word e.mask ++ word e.cookie ++ word (length e.name + e.padding)

abbrev name_field : KernelEvent → Text
name_field e = e.name ++ replicate e.padding 0

abbrev pub encode : KernelEvent → Text
encode e = header e ++ name_field e

abbrev pub encode_all : List KernelEvent → Text
encode_all [] = []
encode_all (e ∷ es) = encode e ++ encode_all es

pub word_back :
    (n : ℕ)
    → n < 2 ^ 32
    → n % 256 + 256 * (n / 256 % 256) + 65536 * (n / 65536 % 256) + 16777216 * (n / 16777216 % 256)
      ≡ n
word_back n h = omega arith

length-replicate : (n x : ℕ) → length (replicate n x) ≡ n
length-replicate zero x = refl
length-replicate (suc n) x = ap suc (length-replicate n x)

pub length-encode : (e : KernelEvent) → length (encode e) ≡ 16 + (length e.name + e.padding)
length-encode e =
    omega (arith, length-append {0} e.name (replicate e.padding 0), length-replicate e.padding 0)

-- The name ends at the first zero, whatever follows.
pub copy_name-zero :
    (len : ℕ) (name t : Text)
    → Each (λ c. 0 < c) name
    → copy_name (suc len) (name ++ 0 ∷ t) ≡ some name
unfolding copy_name
copy_name-zero len [] t h = refl
copy_name-zero len (zero ∷ name) t h = absurd (omega (arith, h.0))
copy_name-zero len (suc c ∷ name) t h = rw (copy_name-zero len name t h.1, copy_name) refl

copy_name-padded :
    (len padding : ℕ) (name t : Text)
    → Each (λ c. 0 < c) name
    → 0 < padding
    → 0 < len
    → copy_name len ((name ++ replicate padding 0) ++ t) ≡ some name
copy_name-padded len zero name t h k some_len = absurd (omega (arith, k))
copy_name-padded zero (suc n) name t h k some_len = absurd (omega (arith, some_len))
copy_name-padded (suc len) (suc n) name t h k some_len =
    rw (append_assoc name (0 ∷ replicate n 0) t) (copy_name-zero len name (replicate n 0 ++ t) h)

copy_name-field :
    (e : KernelEvent) (t : Text)
    → IsNamed e
    → copy_name (length e.name + e.padding) (name_field e ++ t) ≡ some e.name
copy_name-field e t h =
    copy_name-padded (length e.name + e.padding) e.padding e.name t h.no_zero h.padded
      (omega (arith, h.padded))

copy_name-encode :
    (e : KernelEvent) (t : Text)
    → IsNamed e
    → copy_name (word_at 12 (encode e ++ t)) (name_field e ++ t) ≡ some e.name
unfolding word_at
copy_name-encode e t h =
    ap (λ n. copy_name n (name_field e ++ t))
      (word_back (length e.name + e.padding) (omega (arith, h.name_fits)))
    ∙ copy_name-field e t h

pub front_event-encode :
    (e : KernelEvent) (t stale : Text)
    → IsNamed e
    → front_event (record { filled = encode e ++ t; stale = stale }) ≡ some (event_of e)
unfolding front_event word_at
front_event-encode e t stale h =
    rw
      (
        append_assoc (name_field e) t stale,
        copy_name-encode e (t ++ stale) h,
        word_back e.wd h.wd_fits,
        word_back e.mask h.mask_fits,
        word_back e.cookie h.cookie_fits,
        front_event,
      )
      refl

pub event_size-encode :
    (e : KernelEvent) (t stale : Text)
    → length e.name + e.padding ≤ 256
    → event_size (record { filled = encode e ++ t; stale = stale }) ≡ length (encode e)
unfolding event_size word_at
event_size-encode e t stale h =
    ap (λ k. 16 + k) (word_back (length e.name + e.padding) (omega arith)) ∙ sym (length-encode e)
