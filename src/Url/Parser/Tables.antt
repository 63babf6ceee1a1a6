-- ===== src/Url/Parser/Tables.antt =====
-- The tables of the generated machine in src/url_parser.hpp, as they stand there.
use cdnalizerd.Base.{ℕ, List, [], ◌∷◌}

unfoldable pub url_actions : List ℕ
url_actions =
    0 ∷ 1 ∷ 1 ∷ 1 ∷ 2 ∷ 1 ∷ 3 ∷ 1 ∷ 4 ∷ 1 ∷ 6 ∷ 1 ∷ 7 ∷ 1 ∷ 8 ∷ 1 ∷ 10 ∷ 1 ∷ 11 ∷ 1 ∷ 12 ∷ 2 ∷ 0 ∷ 5
    ∷ 2 ∷ 2 ∷ 9 ∷ 2 ∷ 4 ∷ 9 ∷ 2 ∷ 6 ∷ 2 ∷ 2 ∷ 7 ∷ 3 ∷ 2 ∷ 11 ∷ 12 ∷ 3 ∷ 0 ∷ 5 ∷ 1 ∷ []

unfoldable pub url_key_offsets : List ℕ
url_key_offsets =
    0 ∷ 0 ∷ 1 ∷ 2 ∷ 3 ∷ 4 ∷ 6 ∷ 7 ∷ 8 ∷ 23 ∷ 36 ∷ 49 ∷ 62 ∷ 70 ∷ 72 ∷ 85 ∷ 86 ∷ 94 ∷ 104 ∷ 115 ∷ 126
    ∷ 129 ∷ 145 ∷ []

unfoldable pub url_trans_keys : List ℕ
url_trans_keys =
    104 ∷ 116 ∷ 116 ∷ 112 ∷ 58 ∷ 115 ∷ 47 ∷ 47 ∷ 33 ∷ 59 ∷ 61 ∷ 63 ∷ 95 ∷ 36 ∷ 44 ∷ 45 ∷ 46 ∷ 48
    ∷ 57 ∷ 65 ∷ 90 ∷ 97 ∷ 122 ∷ 33 ∷ 58 ∷ 61 ∷ 64 ∷ 95 ∷ 36 ∷ 46 ∷ 48 ∷ 59 ∷ 63 ∷ 90 ∷ 97 ∷ 122 ∷ 33
    ∷ 59 ∷ 61 ∷ 63 ∷ 95 ∷ 36 ∷ 46 ∷ 48 ∷ 57 ∷ 65 ∷ 90 ∷ 97 ∷ 122 ∷ 33 ∷ 59 ∷ 61 ∷ 64 ∷ 95 ∷ 36 ∷ 46
    ∷ 48 ∷ 57 ∷ 63 ∷ 90 ∷ 97 ∷ 122 ∷ 45 ∷ 46 ∷ 48 ∷ 57 ∷ 65 ∷ 90 ∷ 97 ∷ 122 ∷ 48 ∷ 57 ∷ 33 ∷ 59 ∷ 61
    ∷ 63 ∷ 95 ∷ 36 ∷ 46 ∷ 48 ∷ 57 ∷ 65 ∷ 90 ∷ 97 ∷ 122 ∷ 58 ∷ 47 ∷ 58 ∷ 45 ∷ 57 ∷ 65 ∷ 90 ∷ 97 ∷ 122
    ∷ 33 ∷ 61 ∷ 63 ∷ 95 ∷ 36 ∷ 59 ∷ 64 ∷ 90 ∷ 97 ∷ 122 ∷ 33 ∷ 61 ∷ 95 ∷ 36 ∷ 46 ∷ 48 ∷ 59 ∷ 64 ∷ 90
    ∷ 97 ∷ 122 ∷ 33 ∷ 61 ∷ 95 ∷ 36 ∷ 46 ∷ 48 ∷ 59 ∷ 64 ∷ 90 ∷ 97 ∷ 122 ∷ 47 ∷ 48 ∷ 57 ∷ 33 ∷ 47 ∷ 58
    ∷ 59 ∷ 61 ∷ 63 ∷ 64 ∷ 95 ∷ 36 ∷ 44 ∷ 45 ∷ 57 ∷ 65 ∷ 90 ∷ 97 ∷ 122 ∷ 33 ∷ 47 ∷ 59 ∷ 61 ∷ 64 ∷ 95
    ∷ 36 ∷ 46 ∷ 48 ∷ 57 ∷ 63 ∷ 90 ∷ 97 ∷ 122 ∷ 0 ∷ []

unfoldable pub url_single_lengths : List ℕ
url_single_lengths =
    0 ∷ 1 ∷ 1 ∷ 1 ∷ 1 ∷ 2 ∷ 1 ∷ 1 ∷ 5 ∷ 5 ∷ 5 ∷ 5 ∷ 0 ∷ 0 ∷ 5 ∷ 1 ∷ 2 ∷ 4 ∷ 3 ∷ 3 ∷ 1 ∷ 8 ∷ 6 ∷ []

unfoldable pub url_range_lengths : List ℕ
url_range_lengths =
    0 ∷ 0 ∷ 0 ∷ 0 ∷ 0 ∷ 0 ∷ 0 ∷ 0 ∷ 5 ∷ 4 ∷ 4 ∷ 4 ∷ 4 ∷ 1 ∷ 4 ∷ 0 ∷ 3 ∷ 3 ∷ 4 ∷ 4 ∷ 1 ∷ 4 ∷ 4 ∷ []

unfoldable pub url_index_offsets : List ℕ
url_index_offsets =
    0 ∷ 0 ∷ 2 ∷ 4 ∷ 6 ∷ 8 ∷ 11 ∷ 13 ∷ 15 ∷ 26 ∷ 36 ∷ 46 ∷ 56 ∷ 61 ∷ 63 ∷ 73 ∷ 75 ∷ 81 ∷ 89 ∷ 97
    ∷ 105 ∷ 108 ∷ 121 ∷ []

unfoldable pub url_indicies : List ℕ
url_indicies =
    0 ∷ 1 ∷ 2 ∷ 1 ∷ 3 ∷ 1 ∷ 4 ∷ 1 ∷ 5 ∷ 6 ∷ 1 ∷ 7 ∷ 1 ∷ 8 ∷ 1 ∷ 9 ∷ 9 ∷ 9 ∷ 9 ∷ 9 ∷ 9 ∷ 10 ∷ 10 ∷ 10
    ∷ 10 ∷ 1 ∷ 11 ∷ 12 ∷ 11 ∷ 13 ∷ 11 ∷ 11 ∷ 11 ∷ 11 ∷ 11 ∷ 1 ∷ 14 ∷ 14 ∷ 14 ∷ 14 ∷ 14 ∷ 14 ∷ 14
    ∷ 14 ∷ 14 ∷ 1 ∷ 15 ∷ 15 ∷ 15 ∷ 16 ∷ 15 ∷ 15 ∷ 15 ∷ 15 ∷ 15 ∷ 1 ∷ 17 ∷ 17 ∷ 17 ∷ 17 ∷ 1 ∷ 18 ∷ 1
    ∷ 14 ∷ 14 ∷ 14 ∷ 14 ∷ 14 ∷ 14 ∷ 19 ∷ 14 ∷ 14 ∷ 1 ∷ 5 ∷ 1 ∷ 21 ∷ 22 ∷ 20 ∷ 20 ∷ 20 ∷ 1 ∷ 23 ∷ 23
    ∷ 24 ∷ 23 ∷ 23 ∷ 23 ∷ 23 ∷ 1 ∷ 25 ∷ 25 ∷ 25 ∷ 25 ∷ 25 ∷ 25 ∷ 25 ∷ 1 ∷ 26 ∷ 26 ∷ 26 ∷ 26 ∷ 26
    ∷ 26 ∷ 26 ∷ 1 ∷ 27 ∷ 28 ∷ 1 ∷ 11 ∷ 21 ∷ 30 ∷ 11 ∷ 11 ∷ 11 ∷ 13 ∷ 11 ∷ 11 ∷ 29 ∷ 29 ∷ 29 ∷ 1 ∷ 15
    ∷ 27 ∷ 15 ∷ 15 ∷ 16 ∷ 15 ∷ 15 ∷ 31 ∷ 15 ∷ 15 ∷ 1 ∷ 0 ∷ []

unfoldable pub url_trans_targs : List ℕ
url_trans_targs =
    2 ∷ 0 ∷ 3 ∷ 4 ∷ 5 ∷ 6 ∷ 15 ∷ 7 ∷ 8 ∷ 9 ∷ 21 ∷ 9 ∷ 10 ∷ 12 ∷ 11 ∷ 11 ∷ 12 ∷ 16 ∷ 20 ∷ 22 ∷ 16
    ∷ 17 ∷ 13 ∷ 17 ∷ 18 ∷ 19 ∷ 19 ∷ 17 ∷ 20 ∷ 21 ∷ 14 ∷ 22 ∷ []

unfoldable pub url_trans_actions : List ℕ
url_trans_actions =
    0 ∷ 0 ∷ 0 ∷ 0 ∷ 0 ∷ 0 ∷ 0 ∷ 0 ∷ 0 ∷ 21 ∷ 39 ∷ 0 ∷ 9 ∷ 9 ∷ 11 ∷ 0 ∷ 13 ∷ 1 ∷ 5 ∷ 33 ∷ 0 ∷ 24 ∷ 3
    ∷ 0 ∷ 15 ∷ 17 ∷ 0 ∷ 27 ∷ 0 ∷ 0 ∷ 30 ∷ 0 ∷ []

unfoldable pub url_eof_actions : List ℕ
url_eof_actions =
    0 ∷ 0 ∷ 0 ∷ 0 ∷ 0 ∷ 0 ∷ 0 ∷ 0 ∷ 0 ∷ 0 ∷ 0 ∷ 0 ∷ 0 ∷ 0 ∷ 0 ∷ 0 ∷ 3 ∷ 15 ∷ 36 ∷ 19 ∷ 7 ∷ 3 ∷ 7
    ∷ []

unfoldable pub url_start : ℕ
url_start = 1

unfoldable pub url_first_final : ℕ
url_first_final = 16
