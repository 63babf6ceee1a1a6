-- ===== src/ExcludeFilter.antt =====
-- src/testExcludeFilter.cpp, a program that tries expressions to ignore on a list of names. The making of
-- a regular expression, which can throw, and the search for it are parameters.
use cdnalizerd.Base.{
  ℕ, suc, Bool, true, false, ◌&&◌, List, [], ◌∷◌, ◌++◌, Option, some, if◌then◌else◌, ◌>>=◌,
}
use cdnalizerd.Base.Text.{Text, codes, text_eq}
use cdnalizerd.Base.Maps.{find}
use cdnalizerd.Config.{ConfigEntry, should_ignore_file}

abbrev input : List Text
input =
    codes "abc"
    ∷ codes "def"
    ∷ codes "/some/dir/with/abc"
    ∷ codes "/some/dir/without"
    ∷ codes "a/b/c/d"
    ∷ codes "/some/dir/abc/in/the/middle"
    ∷ codes "/definitely/a/file"
    ∷ codes "/file/for/fun"
    ∷ codes "funtastic"
    ∷ codes "fantastic"
    ∷ []

abbrev pub regex_to_expected : List (Text × List Text)
regex_to_expected =
    (
      codes "abc",
      codes "abc" ∷ codes "/some/dir/with/abc" ∷ codes "/some/dir/abc/in/the/middle" ∷ [],
    )
    ∷ (codes "fun", codes "/file/for/fun" ∷ codes "funtastic" ∷ [])
    ∷ (codes "^fun", codes "funtastic" ∷ [])
    ∷ (
      codes "a.*b.*c",
      codes "abc"
          ∷ codes "/some/dir/with/abc"
          ∷ codes "a/b/c/d"
          ∷ codes "/some/dir/abc/in/the/middle"
          ∷ [],
    )
    ∷ (codes "abc$", codes "abc" ∷ codes "/some/dir/with/abc" ∷ [])
    ∷ (codes "^f.n", codes "funtastic" ∷ codes "fantastic" ∷ [])
    ∷ []

-- `operator==` of two vectors of strings.
unfoldable lines_eq : List Text → List Text → Bool
lines_eq [] [] = true
lines_eq (s ∷ ss) (t ∷ ts) = text_eq s t && lines_eq ss ts
lines_eq _ _ = false

module _ {Regex : Type 0} (make_regex : Text → Option Regex)
    (regex_search : Text → Regex → Bool) where
  -- `ConfigEntry e`
  abbrev blank_entry : ConfigEntry Regex
  blank_entry = record {
    username = [];
    apikey = [];
    region = [];
    container = [];
    snet = false;
    move = false;
    local_dir = [];
    remote_dir = [];
    files_to_ignore = [];
    directories_to_ignore = [];
  }

  -- The lines that the entry ignores.
  unfoldable ignored_lines : ConfigEntry Regex → List Text → List Text
  unfolding should_ignore_file
  ignored_lines e [] = []
  ignored_lines e (line ∷ lines) =
      let rest = ignored_lines e lines in
      if should_ignore_file regex_search e line then line ∷ rest else rest

  -- The loop over the arguments, from an entry: how many outputs are not what is expected. `none` is an
  -- exception, of the expression or of `at`.
  unfoldable check_all : ConfigEntry Regex → List Text → Option ℕ
  unfolding ignored_lines lines_eq find
  check_all e [] = some 0
  check_all e (regex ∷ regexes) = make_regex regex >>= λ r.
      (let e' = record e { files_to_ignore = e.files_to_ignore ++ r ∷ [] } in
        find text_eq regex_to_expected regex >>= λ expected. check_all e' regexes >>= λ result.
        some (if lines_eq expected (ignored_lines e' input) then result else suc result))

  -- `main`, on the arguments behind the program's name: the exit status.
  unfoldable pub exclude_filter : List Text → Option ℕ
  unfolding check_all
  exclude_filter [] = some 1
  exclude_filter (regex ∷ regexes) = check_all blank_entry (regex ∷ regexes)
