-- ===== src/Config/Order.antt =====
-- The comparisons of entries in src/config/config.hpp.
use cdnalizerd.Base.{◌≡◌, true, false, arith}
use cdnalizerd.Base.Text.{text_lt, text_eq→eq, text_lt_irrefl}
use cdnalizerd.Config.{ConfigEntry, entry_lt, entry_eq}

module _ {Regex : Type 0} where
  -- `operator<` is no ordering: whenever one field decides one way and another field the other way,
  -- each entry is less than the other.
  entry_lt_both :
      (a b : ConfigEntry Regex)
      → text_lt a.local_dir b.local_dir ≡ true
      → text_lt b.remote_dir a.remote_dir ≡ true
      → (entry_lt a b ≡ true) × (entry_lt b a ≡ true)
  unfolding entry_lt
  entry_lt_both a b h k = ground arith

  -- It never puts an entry before itself, and entries that are equal by `operator==` are not less
  -- than one another.
  entry_lt-of_eq : (a b : ConfigEntry Regex) → entry_eq a b ≡ true → entry_lt a b ≡ false
  unfolding entry_lt entry_eq
  entry_lt-of_eq a b h = ground (
    arith,
    text_eq→eq a.local_dir b.local_dir,
    text_eq→eq a.remote_dir b.remote_dir,
    text_eq→eq a.username b.username,
    text_eq→eq a.region b.region,
    text_eq→eq a.container b.container,
    text_eq→eq a.apikey b.apikey,
    text_lt_irrefl a.local_dir,
    text_lt_irrefl a.remote_dir,
    text_lt_irrefl a.username,
    text_lt_irrefl a.region,
    text_lt_irrefl a.container,
    text_lt_irrefl a.apikey,
  )
