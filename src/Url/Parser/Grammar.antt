-- ===== src/Url/Parser/Grammar.antt =====
-- The grammar of src/url.rl as a readable machine, and the proof that the generated tables of
-- src/url_parser.hpp implement it at every state and byte.
use cdnalizerd.Base.{
  ℕ, ◌<◌, ◌≡◌, refl, Bool, true, false, ◌&&◌, ◌||◌, List, [], ◌∷◌, Option, none, some, arith, leb,
  ◌==◌, if◌then◌else◌, get_elem?, holds_below, holds_below-at,
}
use cdnalizerd.Url.Parser.{
  Action, scheme_end, host_start, host_end, port_start, port_end, user_start, user_end,
  password_start, password_end, path_start, path_end, search_start, search_end, all_actions, target,
  actions_on,
}

-- alpha, digit and the named sets of url.rl.
unfoldable is_alpha : ℕ → Bool
is_alpha c = (leb b'a' c && leb c b'z') || (leb b'A' c && leb c b'Z')

unfoldable is_digit : ℕ → Bool
is_digit c = leb b'0' c && leb c b'9'

unfoldable is_safe : ℕ → Bool
is_safe c = c == b'$' || c == b'-' || c == b'_' || c == b'.' || c == b'+'

unfoldable is_extra : ℕ → Bool
is_extra c = c == b'!' || c == b'*' || c == 39 || c == b'(' || c == b')' || c == b','

unfoldable is_uchar : ℕ → Bool
unfolding is_alpha is_digit is_safe is_extra
is_uchar c = is_alpha c || is_digit c || is_safe c || is_extra c || c == b'%'

-- hostname
unfoldable pub is_host : ℕ → Bool
unfolding is_alpha is_digit
is_host c = is_alpha c || is_digit c || c == b'-' || c == b'.'

-- user and password
unfoldable is_user : ℕ → Bool
unfolding is_uchar
is_user c = is_uchar c || c == b';' || c == b'?' || c == b'&' || c == b'='

-- search, and hsegment
unfoldable pub is_search : ℕ → Bool
unfolding is_uchar
is_search c = is_uchar c || c == b';' || c == b':' || c == b'@' || c == b'&' || c == b'='

-- hpath
unfoldable pub is_path : ℕ → Bool
unfolding is_search
is_path c = is_search c || c == b'/'

-- Where in the grammar the parse is.
pub data Place : Type 0 where
  begin scheme_1 scheme_2 scheme_3 scheme_4 slash_1 slash_2 authority user_name : Place
  password_first password_more host_first port_first port_or_password_first secure : Place
  host_more path_more search_first search_more port_more host_or_user port_or_password : Place

-- The number that the generated machine gives the place.
abbrev pub state_of : Place → ℕ
state_of begin = 1
state_of scheme_1 = 2
state_of scheme_2 = 3
state_of scheme_3 = 4
state_of scheme_4 = 5
state_of slash_1 = 6
state_of slash_2 = 7
state_of authority = 8
state_of user_name = 9
state_of password_first = 10
state_of password_more = 11
state_of host_first = 12
state_of port_first = 13
state_of port_or_password_first = 14
state_of secure = 15
state_of host_more = 16
state_of path_more = 17
state_of search_first = 18
state_of search_more = 19
state_of port_more = 20
state_of host_or_user = 21
state_of port_or_password = 22

-- No place has the error state.
pub state_of_ne_0 : (s : Place) → (state_of s == 0) ≡ false
state_of_ne_0 begin = refl
state_of_ne_0 scheme_1 = refl
state_of_ne_0 scheme_2 = refl
state_of_ne_0 scheme_3 = refl
state_of_ne_0 scheme_4 = refl
state_of_ne_0 slash_1 = refl
state_of_ne_0 slash_2 = refl
state_of_ne_0 authority = refl
state_of_ne_0 user_name = refl
state_of_ne_0 password_first = refl
state_of_ne_0 password_more = refl
state_of_ne_0 host_first = refl
state_of_ne_0 port_first = refl
state_of_ne_0 port_or_password_first = refl
state_of_ne_0 secure = refl
state_of_ne_0 host_more = refl
state_of_ne_0 path_more = refl
state_of_ne_0 search_first = refl
state_of_ne_0 search_more = refl
state_of_ne_0 port_more = refl
state_of_ne_0 host_or_user = refl
state_of_ne_0 port_or_password = refl

abbrev pub Moves : Type 0
Moves = Option (Place × List Action)

abbrev on_byte : ℕ → ℕ → Place → Moves
on_byte c expected p = if c == expected then some (p, []) else none

-- What the grammar does with a byte at a place; `none` is a syntax error.
unfoldable pub next : Place → ℕ → Moves
unfolding is_host is_user is_path is_search is_digit
next begin c = on_byte c b'h' scheme_1
next scheme_1 c = on_byte c b't' scheme_2
next scheme_2 c = on_byte c b't' scheme_3
next scheme_3 c = on_byte c b'p' scheme_4
next scheme_4 c = if c == b's' then some (secure, []) else on_byte c b':' slash_1
next secure c = on_byte c b':' slash_1
next slash_1 c = on_byte c b'/' slash_2
next slash_2 c = on_byte c b'/' authority
next authority c =
    if is_host c
    then some (host_or_user, scheme_end ∷ user_start ∷ host_start ∷ [])
    else if is_user c
    then some (user_name, scheme_end ∷ user_start ∷ [])
    else none
next user_name c =
    if is_user c
    then some (user_name, [])
    else if c == b':'
    then some (password_first, user_end ∷ [])
    else if c == b'@'
    then some (host_first, user_end ∷ [])
    else none
next password_first c = if is_user c then some (password_more, password_start ∷ []) else none
next password_more c =
    if is_user c
    then some (password_more, [])
    else if c == b'@'
    then some (host_first, password_end ∷ [])
    else none
next host_first c = if is_host c then some (host_more, host_start ∷ []) else none
next port_first c = if is_digit c then some (port_more, port_start ∷ []) else none
next port_or_password_first c =
    if is_digit c
    then some (port_or_password, password_start ∷ port_start ∷ [])
    else if is_user c
    then some (password_more, password_start ∷ [])
    else none
next host_more c =
    if is_host c
    then some (host_more, [])
    else if c == b'/'
    then some (path_more, host_end ∷ path_start ∷ [])
    else if c == b':'
    then some (port_first, host_end ∷ [])
    else none
next path_more c =
    if is_path c
    then some (path_more, [])
    else if c == b'?'
    then some (search_first, path_end ∷ [])
    else none
next search_first c = if is_search c then some (search_more, search_start ∷ []) else none
next search_more c = if is_search c then some (search_more, []) else none
next port_more c =
    if is_digit c
    then some (port_more, [])
    else if c == b'/'
    then some (path_more, port_end ∷ path_start ∷ [])
    else none
next host_or_user c =
    if is_host c
    then some (host_or_user, [])
    else if c == b'/'
    then some (path_more, host_end ∷ path_start ∷ [])
    else if c == b':'
    then some (port_or_password_first, user_end ∷ host_end ∷ [])
    else if c == b'@'
    then some (host_first, user_end ∷ [])
    else if is_user c
    then some (user_name, [])
    else none
next port_or_password c =
    if is_digit c
    then some (port_or_password, [])
    else if c == b'/'
    then some (path_more, port_end ∷ path_start ∷ [])
    else if c == b'@'
    then some (host_first, password_end ∷ [])
    else if is_user c
    then some (password_more, [])
    else none

abbrev target_of : Moves → ℕ
target_of none = 0
target_of (some (p, _)) = state_of p

abbrev actions_of : Moves → List Action
actions_of none = []
actions_of (some (_, l)) = l

number : Action → ℕ
number scheme_end = 0
number host_start = 1
number host_end = 2
number port_start = 3
number port_end = 4
number user_start = 5
number user_end = 6
number password_start = 7
number password_end = 8
number path_start = 9
number path_end = 10
number search_start = 11
number search_end = 12

named_number : (a : Action) → get_elem? all_actions (number a) ≡ some a
unfolding number
named_number scheme_end = refl
named_number host_start = refl
named_number host_end = refl
named_number port_start = refl
named_number port_end = refl
named_number user_start = refl
named_number user_end = refl
named_number password_start = refl
named_number password_end = refl
named_number path_start = refl
named_number path_end = refl
named_number search_start = refl
named_number search_end = refl

same : List Action → List Action → Bool
same [] [] = true
same (a ∷ l) (b ∷ m) = number a == number b && same l m
same _ _ = false

same_sound : (l m : List Action) → same l m ≡ true → l ≡ m
unfolding same
same_sound [] [] h = refl
same_sound [] (b ∷ m) h = cc
same_sound (a ∷ l) [] h = cc
same_sound (a ∷ l) (b ∷ m) h = ground (arith, same_sound l m, named_number a, named_number b)

agrees : Place → ℕ → Bool
unfolding target actions_on next same
agrees p c =
    target (state_of p) c == target_of (next p c)
    && same (actions_on (state_of p) c) (actions_of (next p c))

agrees_all : (p : Place) → holds_below 256 (agrees p) ≡ true
unfolding agrees holds_below number
agrees_all begin = refl
agrees_all scheme_1 = refl
agrees_all scheme_2 = refl
agrees_all scheme_3 = refl
agrees_all scheme_4 = refl
agrees_all slash_1 = refl
agrees_all slash_2 = refl
agrees_all authority = refl
agrees_all user_name = refl
agrees_all password_first = refl
agrees_all password_more = refl
agrees_all host_first = refl
agrees_all port_first = refl
agrees_all port_or_password_first = refl
agrees_all secure = refl
agrees_all host_more = refl
agrees_all path_more = refl
agrees_all search_first = refl
agrees_all search_more = refl
agrees_all port_more = refl
agrees_all host_or_user = refl
agrees_all port_or_password = refl

agrees_at : (p : Place) (c : ℕ) → c < 256 → agrees p c ≡ true
agrees_at p c h = holds_below-at 256 (agrees p) c (agrees_all p) h

split_agreement : (m n : ℕ) (k l : List Action) → (m == n && same k l) ≡ true → (m ≡ n) × (k ≡ l)
split_agreement m n k l h = ground (arith, same_sound k l)

-- At every place of the grammar and every byte the generated tables move to the state of the
-- grammar's next place, or to the error state 0 exactly where the grammar has no move, and run the
-- actions that the grammar attaches.
pub target-next :
    (p : Place) (c : ℕ)
    → c < 256
    → (target (state_of p) c ≡ target_of (next p c))
      × (actions_on (state_of p) c ≡ actions_of (next p c))
unfolding agrees
target-next p c h =
    split_agreement (target (state_of p) c) (target_of (next p c)) (actions_on (state_of p) c)
      (actions_of (next p c)) (agrees_at p c h)
