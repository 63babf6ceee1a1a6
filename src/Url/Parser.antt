-- ===== src/Url/Parser.antt =====
-- `URL` of src/url.hpp and `URL::parse` of src/url_parser.hpp, which src/url_parser.hpp.rl generates:
-- the machine runs from its tables, with the two searches of the driver.
pub mod Tables
pub mod Grammar
pub mod Runs
pub mod Laws
use cdnalizerd.Base.{
  ℕ, zero, suc, ◌+◌, ◌-◌, ◌*◌, ◌/◌, Bool, List, [], ◌∷◌, ◌++◌, Option, none, some, ltb, leb, ◌==◌,
  if◌then◌else◌, get_or, get_elem?, take, drop, length,
}
use cdnalizerd.Base.Text.{Text, is_empty}
use Tables.{
  url_actions, url_key_offsets, url_trans_keys, url_single_lengths, url_range_lengths,
  url_index_offsets, url_indicies, url_trans_targs, url_trans_actions, url_eof_actions, url_start,
  url_first_final,
}

pub record Url : Type 0 where
  pub raw : Text
  pub scheme : Text
  pub user : Text
  pub password : Text
  pub host : Text
  pub port : Text
  pub path : Text
  pub search : Text
  pub path_and_search : Text

-- `URL()`
abbrev pub empty_url : Url
empty_url = record {
  raw = [];
  scheme = [];
  user = [];
  password = [];
  host = [];
  port = [];
  path = [];
  search = [];
  path_and_search = [];
}

unfoldable scheme_host_port : Url → Text
scheme_host_port u =
    if is_empty u.port then u.scheme ++ u.host else u.scheme ++ u.host ++ b':' ∷ u.port

-- The exception "Unable to parse URL" carries the position.
pub data Parsed : Type 0 where
  parsed : Url → Parsed
  parse_error : ℕ → Parsed

-- The actions of src/url_actions.rl, in the order of their numbers in the tables.
pub data Action : Type 0 where
  scheme_end host_start host_end port_start port_end user_start user_end : Action
  password_start password_end path_start path_end search_start search_end : Action

abbrev pub all_actions : List Action
all_actions =
    scheme_end ∷ host_start ∷ host_end ∷ port_start ∷ port_end ∷ user_start ∷ user_end
    ∷ password_start ∷ password_end ∷ path_start ∷ path_end ∷ search_start ∷ search_end ∷ []

-- The local variables of `parse` that outlive a round, and the fields it fills.
pub record Machine : Type 0 where
  pub cs : ℕ
  pub start : ℕ
  pub url : Url

-- `std::string(start, p)`
abbrev pub slice : Text → ℕ → ℕ → Text
slice raw start p = take (p - start) (drop start raw)

-- The bodies in src/url_actions.rl.
unfoldable act : Text → ℕ → Action → ℕ → Url → ℕ × Url
act raw p scheme_end start u = (start, record u { scheme = slice raw start p })
act raw p host_start start u = (p, u)
act raw p host_end start u = (start, record u { host = slice raw start p })
act raw p port_start start u = (p, u)
act raw p port_end start u = (start, record u { port = slice raw start p })
act raw p user_start start u = (p, u)
act raw p user_end start u = (start, record u { user = slice raw start p })
act raw p password_start start u = (p, u)
act raw p password_end start u = (start, record u { password = slice raw start p })
act raw p path_start start u = (p, u)
act raw p path_end start u = (start, record u { path = slice raw start p })
act raw p search_start start u = (p, u)
act raw p search_end start u = (start, record u { search = slice raw start p })

unfoldable pub act_all : Text → ℕ → List Action → ℕ → Url → ℕ × Url
unfolding act
act_all raw p [] start u = (start, u)
act_all raw p (a ∷ as') start u =
    let (start', u') = act raw p a start u in act_all raw p as' start' u'

-- `_nacts` entries of the action table from an offset.
unfoldable named : List ℕ → List Action
named [] = []
named (n ∷ ns) = elim (get_elem? all_actions n) [ none ↦ named ns | some a ↦ a ∷ named ns ]

unfoldable actions_at : ℕ → List Action
unfolding url_actions named
actions_at offset = named (take (get_or url_actions offset 0) (drop (suc offset) url_actions))

-- The first search: a binary search of single keys. `upper` is one past the source's `_upper`.
unfoldable find_single : ℕ → ℕ → ℕ → ℕ → ℕ → Option ℕ
unfolding url_trans_keys
find_single zero keys lower upper c = none
find_single (suc fuel) keys lower upper c =
    let mid = lower + (upper - 1 - lower) / 2 in
    let key = get_or url_trans_keys (keys + mid) 0 in
    let below = find_single fuel keys lower mid c in
    let above = find_single fuel keys (mid + 1) upper c in
    if leb upper lower
    then none
    else if ltb c key
    then below
    else if ltb key c
    then above
    else some mid

-- The second search: a binary search of ranges, counted in pairs.
unfoldable find_range : ℕ → ℕ → ℕ → ℕ → ℕ → Option ℕ
unfolding url_trans_keys
find_range zero keys lower upper c = none
find_range (suc fuel) keys lower upper c =
    let mid = lower + (upper - 1 - lower) / 2 in
    let low = get_or url_trans_keys (keys + 2 * mid) 0 in
    let high = get_or url_trans_keys (keys + 2 * mid + 1) 0 in
    let below = find_range fuel keys lower mid c in
    let above = find_range fuel keys (mid + 1) upper c in
    if leb upper lower
    then none
    else if ltb c low
    then below
    else if ltb high c
    then above
    else some mid

-- `_trans` at the label `_match`: each search takes as many rounds as it has keys, at most.
unfoldable transition : ℕ → ℕ → ℕ
unfolding find_single find_range url_key_offsets url_index_offsets url_single_lengths
    url_range_lengths url_indicies
transition cs c =
    let keys = get_or url_key_offsets cs 0 in
    let base = get_or url_index_offsets cs 0 in
    let singles = get_or url_single_lengths cs 0 in
    let ranges = get_or url_range_lengths cs 0 in
    elim (find_single singles keys 0 singles c) [
      | some i ↦ get_or url_indicies (base + i) 0
      | none ↦ elim (find_range ranges (keys + singles) 0 ranges c) [
        | some i ↦ get_or url_indicies (base + singles + i) 0
        | none ↦ get_or url_indicies (base + singles + ranges) 0
      ]
    ]

unfoldable pub target : ℕ → ℕ → ℕ
unfolding transition url_trans_targs
target cs c = get_or url_trans_targs (transition cs c) 0

-- Offset 0 of the action table holds the empty list, as the driver's own test says.
unfoldable pub actions_on : ℕ → ℕ → List Action
unfolding transition url_trans_actions actions_at
actions_on cs c = actions_at (get_or url_trans_actions (transition cs c) 0)

unfoldable actions_at_end : ℕ → List Action
unfolding url_eof_actions actions_at
actions_at_end cs = actions_at (get_or url_eof_actions cs 0)

-- One round, from `_resume` to `_again`, at position `p` and byte `c`.
unfoldable pub step : Text → ℕ → ℕ → Machine → Machine
unfolding target actions_on act_all
step raw p c m =
    let (start', url') = act_all raw p (actions_on m.cs c) m.start m.url in
    record { cs = target m.cs c; start = start'; url = url' }

-- The rest of the driver, from `_test_eof` on, where `p == eof`.
unfoldable finish : Text → ℕ → Machine → Machine
unfolding actions_at_end act_all
finish raw p m =
    let (start', url') = act_all raw p (actions_at_end m.cs) m.start m.url in
    record m { start = start'; url = url' }

-- The loop over the bytes that are left, with the position where it ends.
unfoldable pub run : Text → Text → ℕ → Machine → Machine × ℕ
unfolding step finish
run raw [] p m = (finish raw p m, p)
run raw (c ∷ rest) p m =
    let m' = step raw p c m in
    let next = run raw rest (suc p) m' in if m'.cs == 0 then (m', p) else next

-- `parse`, after the constructor has set `raw`.
unfoldable pub parse : Text → Parsed
unfolding run url_start url_first_final
parse raw =
    let (m, p) =
      run raw raw 0 (record { cs = url_start; start = 0; url = record empty_url { raw = raw } }) in
    if ltb m.cs url_first_final
    then parse_error p
    else parsed (record (m.url) { path_and_search = m.url.path ++ m.url.search })
