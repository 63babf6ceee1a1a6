-- ===== src/Config/Entries/Laws.antt =====
-- The entries stay valid and in order, and what a lookup by path finds.
use mathlib.Core.List.{Perm}
use mathlib.Core.List.Perm
use cdnalizerd.Base.{
  ℕ, zero, suc, ◌≡◌, ◌≢◌, ◌⊎◌, inl, inr, refl, ap, ◌∙◌, true, false, List, [], ◌∷◌, ◌++◌, Option,
  none, some, get_elem?, arith, Each, append-nil, Each-imp, Bool-cases,
}
use cdnalizerd.Base.Text.{
  Text, text_lt, TextLe, TextLe-of_lt, TextLe-trans, text_lt_irrefl, text_lt-total,
}
use cdnalizerd.Config.{ConfigEntry, validate}
use cdnalizerd.Config.Entries.{
  Config, Result, ok, throws, invalid_entry, path_not_found, lower_bound, emplace, add_entry,
  get_entry_by_path,
}

module _ {Regex : Type 0} where
  -- Not after, by local directory.
  abbrev pub EntryLe : ConfigEntry Regex → ConfigEntry Regex → Type 0
  EntryLe e f = TextLe e.local_dir f.local_dir

  abbrev pub IsSorted : List (ConfigEntry Regex) → Type 0
  IsSorted [] = Unit
  IsSorted (e ∷ es) = Each (EntryLe e) es × IsSorted es

  -- What `Config` promises of its entries.
  pub record IsValid (c : Config Regex) : Type 0 where
    pub sorted : IsSorted c.entries
    pub valid : Each (λ e. validate e ≡ true) c.entries

  emplace-perm :
      (n : ℕ) (e : ConfigEntry Regex) (es : List (ConfigEntry Regex))
      → Perm (emplace n e es) (e ∷ es)
  unfolding emplace
  emplace-perm zero e es = Perm.refl (e ∷ es)
  emplace-perm (suc n) e [] = Perm.refl (e ∷ [])
  emplace-perm (suc n) e (f ∷ es) =
      Perm.trans (Perm.cons f (emplace-perm n e es)) (Perm.swap e f es)

  emplace-Each {κ} :
      (P : ConfigEntry Regex → Type κ) (n : ℕ) (e : ConfigEntry Regex)
      (es : List (ConfigEntry Regex))
      → P e
      → Each P es
      → Each P (emplace n e es)
  unfolding emplace
  emplace-Each P zero e es h k = (h, k)
  emplace-Each P (suc n) e [] h k = (h, tt)
  emplace-Each P (suc n) e (f ∷ es) h k = (k.0, emplace-Each P n e es h k.1)

  above_head :
      (e f : ConfigEntry Regex) (es : List (ConfigEntry Regex))
      → EntryLe e f
      → Each (EntryLe f) es
      → Each (EntryLe e) (f ∷ es)
  above_head e f es h k = (
    h,
    Each-imp (EntryLe f) (EntryLe e) es
        (λ g l. TextLe-trans e.local_dir f.local_dir g.local_dir h l) k,
  )

  Each-middle {κ} :
      (P : ConfigEntry Regex → Type κ) (before : List (ConfigEntry Regex)) (e : ConfigEntry Regex)
      (after : List (ConfigEntry Regex))
      → Each P (before ++ e ∷ after)
      → P e
  Each-middle P [] e after h = h.0
  Each-middle P (f ∷ before) e after h = Each-middle P before e after h.1

  emplace-IsSorted :
      (e : ConfigEntry Regex) (es : List (ConfigEntry Regex))
      → IsSorted es
      → IsSorted (emplace (lower_bound es e.local_dir) e es)
  unfolding emplace lower_bound
  emplace-IsSorted e [] h = (tt, tt)
  emplace-IsSorted e (f ∷ es) h = elim (Bool-cases (text_lt f.local_dir e.local_dir)) [
    | inl less ↦ rw less (
      emplace-Each (EntryLe f) (lower_bound es e.local_dir) e es
          (TextLe-of_lt f.local_dir e.local_dir less) h.0,
      emplace-IsSorted e es h.1,
    )
    | inr not_less ↦ rw not_less (above_head e f es not_less h.0, h)
  ]

  -- `addEntry` refuses exactly the entries that are not valid. Otherwise it adds the entry to those
  -- there are, and keeps all entries valid and in order of their local directories.
  pub add_entry-IsValid :
      (c : Config Regex) (e : ConfigEntry Regex)
      → IsValid c
      → ((validate e ≡ false) × (add_entry c e ≡ throws invalid_entry))
        ⊎ ((d : Config Regex) × (validate e ≡ true)
            × (add_entry c e ≡ ok d)
            × Perm d.entries (e ∷ c.entries)
            × IsValid d)
  unfolding add_entry
  add_entry-IsValid c e h = elim (Bool-cases (validate e)) [
    | inl v ↦
        let n = lower_bound c.entries e.local_dir in
        inr (
          record { entries = emplace n e c.entries },
          v,
          rw v refl,
          emplace-perm n e c.entries,
          record {
            sorted = emplace-IsSorted e c.entries h.sorted;
            valid = emplace-Each (λ f. validate f ≡ true) n e c.entries v h.valid;
          },
        )
    | inr v ↦ inl (v, rw v refl)
  ]

  -- The lookup that `getEntryByPath` makes, over the list.
  first_from : List (ConfigEntry Regex) → Text → Option (ConfigEntry Regex)
  first_from es path = get_elem? es (lower_bound es path)

  first_from_present :
      (path : Text) (before after : List (ConfigEntry Regex)) (e : ConfigEntry Regex)
      → IsSorted (before ++ e ∷ after)
      → e.local_dir ≡ path
      → (f : ConfigEntry Regex) × (first_from (before ++ e ∷ after) path ≡ some f)
        × (f.local_dir ≡ path)
  unfolding first_from lower_bound
  first_from_present path [] after e s p = (e, rw (p, text_lt_irrefl path) refl, p)
  first_from_present path (g ∷ before) after e s p = elim (Bool-cases (text_lt g.local_dir path)) [
    | inl less ↦ rw less (first_from_present path before after e s.1 p)
    | inr not_less ↦ (
      g,
      rw not_less refl,
      text_lt-total g.local_dir path not_less
          (rw (← p) (Each-middle (EntryLe g) before e after s.0)),
    )
  ]

  first_from_absent :
      (path : Text) (before after : List (ConfigEntry Regex)) (e : ConfigEntry Regex)
      → Each (λ f. text_lt f.local_dir path ≡ true) before
      → text_lt path e.local_dir ≡ true
      → first_from (before ++ e ∷ after) path ≡ some e
  unfolding first_from lower_bound
  first_from_absent path [] after e s p = rw (TextLe-of_lt path e.local_dir p) refl
  first_from_absent path (g ∷ before) after e s p =
      rw s.0 (first_from_absent path before after e s.1 p)

  first_from_past :
      (path : Text) (es : List (ConfigEntry Regex))
      → Each (λ f. text_lt f.local_dir path ≡ true) es
      → first_from es path ≡ none
  unfolding first_from lower_bound
  first_from_past path [] h = refl
  first_from_past path (g ∷ es) h = rw h.0 (first_from_past path es h.1)

  abbrev result_at : Text → Option (ConfigEntry Regex) → Result (ConfigEntry Regex)
  result_at path none = throws (path_not_found path)
  result_at path (some e) = ok e

  get_lem :
      (c : Config Regex) (path : Text) (r : Option (ConfigEntry Regex))
      → first_from c.entries path ≡ r
      → get_entry_by_path c path ≡ result_at path r
  unfolding get_entry_by_path first_from
  get_lem c path r e = opened (first_from c.entries path) refl ∙ ap (result_at path) e
    where
      opened :
          (o : Option (ConfigEntry Regex))
          → first_from c.entries path ≡ o
          → get_entry_by_path c path ≡ result_at path (first_from c.entries path)
      opened o e = ground arith

  -- Among valid entries, a path that some entry has is found: `getEntryByPath` returns an entry with
  -- that local directory.
  get_entry_by_path-present :
      (c : Config Regex) (path : Text) (before after : List (ConfigEntry Regex))
      (e : ConfigEntry Regex)
      → IsValid c
      → c.entries ≡ before ++ e ∷ after
      → e.local_dir ≡ path
      → (f : ConfigEntry Regex) × (get_entry_by_path c path ≡ ok f) × (f.local_dir ≡ path)
  get_entry_by_path-present c path before after e v q p =
      let (f, found, same) = first_from_present path before after e (rw (← q) v.sorted) p in
      (f, get_lem c path (some f) (rw q found), same)

  -- A path that no entry has is an error only if all entries are before it. If the entries before it
  -- are followed by one after it, the result is that entry, of another directory.
  get_entry_by_path-absent :
      (c : Config Regex) (path : Text) (before after : List (ConfigEntry Regex))
      → Each (λ f. text_lt f.local_dir path ≡ true) before
      → Each (λ f. text_lt path f.local_dir ≡ true) after
      → c.entries ≡ before ++ after
      → ((after ≡ []) × (get_entry_by_path c path ≡ throws (path_not_found path)))
        ⊎ ((e : ConfigEntry Regex) × (rest : List (ConfigEntry Regex)) × (after ≡ e ∷ rest)
            × (get_entry_by_path c path ≡ ok e)
            × (e.local_dir ≢ path))
  get_entry_by_path-absent c path before [] h k q =
      inl (refl, get_lem c path none (rw (q, append-nil before) (first_from_past path before h)))
  get_entry_by_path-absent c path before (e ∷ rest) h k q = inr (
    e,
    rest,
    refl,
    get_lem c path (some e) (rw q (first_from_absent path before rest e h k.0)),
    λ same. ground (arith, text_lt_irrefl path),
  )
