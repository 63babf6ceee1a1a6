-- ===== src/Inotify.antt =====
-- src/inotify.hpp: watches, the two maps of `Instance`, and the tests of an event. The kernel's answer
-- to `inotify_add_watch` is an argument.
pub mod Laws
pub mod Buffer
pub mod Print
use cdnalizerd.Base.{
  ℕ, ◌*◌, ◌/◌, ◌%◌, Bool, true, false, ◌||◌, not, List, [], ◌∷◌, ◌++◌, Option, none, some, ◌==◌,
  if◌then◌else◌,
}
use cdnalizerd.Base.Maps.{find, erase}
use cdnalizerd.Base.Text.{Text, text_eq}

pub record Watch : Type 0 where
  pub handle : ℕ
  pub path : Text

-- `removed` are the handles that destructors gave to `inotify_rm_watch`.
pub record Instance : Type 0 where
  pub watches : List (ℕ × Watch)
  pub paths : List (Text × ℕ)
  pub removed : List ℕ

-- `Instance(yield)`
abbrev pub new_instance : Instance
new_instance = record { watches = []; paths = []; removed = [] }

-- The two exceptions of `addWatch`.
pub data WatchError : Type 0 where
  same_path_twice kernel_refused : WatchError

pub data Added : Type 0 where
  added : Watch → Instance → Added
  not_added : WatchError → Added

-- The end of `addWatch`: `emplace` leaves a watch that has the handle as it is, and the destructor of
-- the new one removes the handle.
unfoldable pub emplace_watch : Instance → Watch → Added
unfolding find
emplace_watch i watch =
    let paths = (watch.path, watch.handle) ∷ i.paths in
    elim (find ◌==◌ i.watches watch.handle) [
      | none ↦ added watch (record i { watches = (watch.handle, watch) ∷ i.watches; paths = paths })
      | some old ↦ added old (record i { paths = paths; removed = i.removed ++ watch.handle ∷ [] })
    ]

-- `addWatch`
unfoldable pub add_watch : Instance → Text → Option ℕ → Added
unfolding find emplace_watch
add_watch i path kernel = elim (find text_eq i.paths path) [
  | some _ ↦ not_added same_path_twice
  | none ↦ elim kernel [
    | none ↦ not_added kernel_refused
    | some handle ↦ emplace_watch i (record { handle = handle; path = path })
  ]
]

-- `removeWatch(const Watch &)`
unfoldable pub remove_watch : Instance → Watch → Instance
unfolding find erase
remove_watch i watch = elim (find ◌==◌ i.watches watch.handle) [
  | none ↦ i
  | some found ↦ record {
    watches = erase ◌==◌ i.watches watch.handle;
    paths = erase text_eq i.paths found.path;
    removed = i.removed ++ watch.handle ∷ [];
  }
]

-- `removeWatch(const std::string &)`
unfoldable remove_watch_path : Instance → Text → Instance
unfolding find erase
remove_watch_path i path = elim (find text_eq i.paths path) [
  | none ↦ i
  | some handle ↦ record {
    watches = erase ◌==◌ i.watches handle;
    paths = erase text_eq i.paths path;
    removed = elim (find ◌==◌ i.watches handle) [
      | none ↦ i.removed
      | some _ ↦ i.removed ++ handle ∷ []
    ];
  }
]

-- `alreadyWatching`
unfoldable pub already_watching : Instance → Text → Bool
unfolding find
already_watching i path = elim (find text_eq i.paths path) [ none ↦ false | some _ ↦ true ]

pub record Event : Type 0 where
  pub wd : ℕ
  pub mask : ℕ
  pub cookie : ℕ
  pub name : Text

-- `mask & bit`, for a `bit` that is a power of two.
unfoldable has_bit : ℕ → ℕ → Bool
has_bit mask bit = not (mask / bit % 2 == 0)

-- `IN_CLOSE` is IN_CLOSE_WRITE or IN_CLOSE_NOWRITE.
unfoldable pub was_closed : Event → Bool
unfolding has_bit
was_closed e = has_bit e.mask 8 || has_bit e.mask 16

-- `IN_IGNORED`
unfoldable pub was_ignored : Event → Bool
unfolding has_bit
was_ignored e = has_bit e.mask 32768

-- `IN_DELETE`
unfoldable pub was_deleted : Event → Bool
unfolding has_bit
was_deleted e = has_bit e.mask 512

-- `IN_CREATE`
unfoldable pub was_created : Event → Bool
unfolding has_bit
was_created e = has_bit e.mask 256

-- `IN_ISDIR`
unfoldable pub is_dir : Event → Bool
unfolding has_bit
is_dir e = has_bit e.mask 1073741824
