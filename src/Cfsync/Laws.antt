-- ===== src/Cfsync/Laws.antt =====
-- What cfsync makes of its options, and what it prints.
use cdnalizerd.Base.{
  ℕ, suc, ◌≡◌, ◌⊎◌, inl, inr, subst, refl, ap, ◌∙◌, Bool, true, false, List, [], ◌∷◌, ◌++◌, Option,
  none, some, map, Option-cases, Bool-cases,
}
use cdnalizerd.Base.Text.{Text, codes, text_eq, is_empty}
use cdnalizerd.Base.Maps.{find}
use cdnalizerd.Config.{ConfigEntry}
use cdnalizerd.Account.{get_url}
use cdnalizerd.Account.Cache.{LoginServer, fill_single_account_cache}
use cdnalizerd.Listing.{Server, PageRequest, Pages}
use cdnalizerd.Listing.Requests.{account_request, list_container-no_entries}
use cdnalizerd.Cfsync.{
  Options, parsed_options, accepted, refused, helped, aborted, setup_commandline_options,
  is_bad_verbosity, JobType, upload, download, server_copy, local_copy, is_remote, job_type_of,
  erase_scheme, entry_of_options, Terminal, Printed, failed, list_files, print_lists, cfsync, main,
}

-- A place: a path in the cloud, given behind `cf://`, or one on the disk.
pub data Place : Type 0 where
  in_cloud : Text → Place
  on_disk : Text → Place

abbrev text_of : Place → Text
text_of (in_cloud path) = codes "cf://" ++ path
text_of (on_disk path) = path

abbrev path_of : Place → Text
path_of (in_cloud path) = path
path_of (on_disk path) = path

-- The path of a place on the disk does not begin with `cf://`.
abbrev pub IsPlace : Place → Type 0
IsPlace (in_cloud path) = Unit
IsPlace (on_disk path) = is_remote path ≡ false

-- The table in the comment of `main`.
abbrev job_between : Place → Place → JobType
job_between (in_cloud _) (in_cloud _) = server_copy
job_between (on_disk _) (in_cloud _) = upload
job_between (in_cloud _) (on_disk _) = download
job_between (on_disk _) (on_disk _) = local_copy

erase_scheme-text_of : (p : Place) → IsPlace p → erase_scheme (text_of p) ≡ path_of p
unfolding erase_scheme
erase_scheme-text_of (in_cloud path) h = refl
erase_scheme-text_of (on_disk path) h = rw (h) refl

job_type_of-text_of :
    (s d : Place) (o : Options)
    → IsPlace s
    → IsPlace d
    → o.source ≡ text_of s
    → o.dest ≡ text_of d
    → job_type_of o ≡ job_between s d
unfolding job_type_of
job_type_of-text_of (in_cloud a) (in_cloud b) o h k e f = rw (e, f) refl
job_type_of-text_of (in_cloud a) (on_disk b) o h k e f = rw (e, f, k) refl
job_type_of-text_of (on_disk a) (in_cloud b) o h k e f = rw (e, f, h) refl
job_type_of-text_of (on_disk a) (on_disk b) o h k e f = rw (e, f, h, k) refl

-- When the source and the destination are places, each with `cf://` in front exactly if it is in the
-- cloud: the kind of job is that of the table, and the entry has the paths of both places.
entry_of_options_places :
    (Regex : Type 0) (s d : Place) (o : Options) (garbage : Bool)
    → IsPlace s
    → IsPlace d
    → o.source ≡ text_of s
    → o.dest ≡ text_of d
    → let entry : ConfigEntry Regex = entry_of_options garbage o in
      (job_type_of o ≡ job_between s d)
      × (entry.local_dir ≡ path_of s)
      × (entry.remote_dir ≡ path_of d)
unfolding entry_of_options
entry_of_options_places Regex s d o garbage h k e f = (
  job_type_of-text_of s d o h k e f,
  ap erase_scheme e ∙ erase_scheme-text_of s h,
  ap erase_scheme f ∙ erase_scheme-text_of d k,
)

setup_cases :
    (o : Options) (help : Bool)
    → let setup = setup_commandline_options (parsed_options o help) in
      (setup ≡ accepted o)
      ⊎ (((x : Text) × (setup ≡ refused x))
          ⊎ (((help ≡ true) × (setup ≡ helped)) ⊎ (setup ≡ aborted)))
unfolding setup_commandline_options
setup_cases o help = elim (Bool-cases (is_empty o.source)) [
  | inl a ↦ inr (inl (codes "No source file/url provided", rw (a) refl))
  | inr a ↦ elim (Bool-cases (is_empty o.dest)) [
    | inl b ↦ inr (inl (codes "No destination file/url provided", rw (a, b) refl))
    | inr b ↦ elim (Bool-cases help) [
      | inl c ↦ inr (inr (inl (c, rw (a, b, c) refl)))
      | inr c ↦ elim (Bool-cases (is_bad_verbosity o.log_verbosity)) [
        | inl d ↦ inr (inr (inr (rw (a, b, c, d) refl)))
        | inr d ↦ inl (rw (a, b, c, d) refl)
      ]
    ]
  ]
]

module _ (T : Terminal) where
  -- The names in a directory, sorted: none where there is no such directory.
  abbrev names_in : Text → List Text
  names_in root = elim (T.directory root) [ none ↦ [] | some files ↦ T.sort files ]

  abbrev lists_of : Text → List Text
  lists_of root = codes "Remote: " ∷ [] ∷ codes "Local: " ∷ map T.print_path (names_in root)

  abbrev empty_list : List PageRequest → Bool → Pages
  empty_list requests thrown = record { requests = requests; pages = []; thrown = thrown }

  print_lists_empty :
      (root : Text) (requests : List PageRequest) (thrown : Bool)
      → let p = print_lists T (empty_list requests thrown) (list_files T root) in
        (p.lines ≡ []) ⊎ (p.lines ≡ lists_of root)
  unfolding print_lists list_files
  print_lists_empty root requests true = inl refl
  print_lists_empty root requests false = elim (Option-cases (T.directory root)) [
    | inl f ↦ inr (rw (f, lists_of, names_in) refl)
    | inr (files, f) ↦ inr (rw (f, lists_of, names_in) refl)
  ]

  -- What a run prints: nothing, or no remote file and the names in a directory.
  abbrev ListsOnly : Text → Option Printed → Type 0
  ListsOnly root run = (p : Printed) × (run ≡ some p) × ((p.lines ≡ []) ⊎ (p.lines ≡ lists_of root))

  -- The same, but for the help where it was asked for.
  abbrev pub ListsOrHelp : Bool → Text → Option Printed → Type 0
  ListsOrHelp help root run =
      (p : Printed) × (run ≡ some p)
      × (((p.lines ≡ []) ⊎ (p.lines ≡ lists_of root)) ⊎ ((help ≡ true) × (p.lines ≡ T.help)))

  without_help :
      (help : Bool) (root : Text) (run : Option Printed)
      → ListsOnly root run
      → ListsOrHelp help root run
  without_help help root run (p, e, lines) = (p, e, inl lines)

  module _ (L : LoginServer) (S : Server)
      (strict : (body : Text) → S.json_to_lines body ≡ none) where
    cfsync-ListsOnly :
        {Regex : Type 0} (fuel : ℕ) (job : JobType) (entry : ConfigEntry Regex) (l : L.World)
        (w : S.World)
        → ListsOnly entry.local_dir (cfsync T L S (suc fuel) job entry l w)
    unfolding cfsync
    cfsync-ListsOnly fuel job entry l w =
        elim (Option-cases (fill_single_account_cache L entry [] l).0) [
          | inl f ↦ (failed, rw (f, cfsync) refl, inl refl)
          | inr (accounts, f) ↦ elim (Option-cases (find text_eq accounts entry.username)) [
            | inl g ↦ (failed, rw (f, g, cfsync) refl, inl refl)
            | inr (rs, g) ↦ elim (Option-cases (get_url rs entry.region entry.snet)) [
              | inl h ↦ (failed, rw (f, g, h, cfsync) refl, inl refl)
              | inr (base, h) ↦
                  let (thrown, e, _) = list_container-no_entries S strict fuel rs entry base w h in
                  (
                    print_lists T
                        (empty_list (account_request rs.token base entry.remote_dir ∷ []) thrown)
                        (list_files T entry.local_dir),
                    rw (f, g, h, e, cfsync) refl,
                    print_lists_empty entry.local_dir
                        (account_request rs.token base entry.remote_dir ∷ []) thrown,
                  )
            ]
          ]
        ]

    -- Whatever the options, the login and the server do, and when a JSON string cannot be made into a
    -- vector, as the JSON library documents: cfsync ends for any fuel but zero. It prints nothing, or
    -- the help, which only --help asks for, or an empty list of remote files and the sorted names in the
    -- directory that the source names, also when the source is a place in the cloud.
    pub main-ListsOrHelp :
        (Regex : Type 0) (fuel : ℕ) (garbage help : Bool) (s : Place) (o : Options) (l : L.World)
        (w : S.World)
        → IsPlace s
        → o.source ≡ text_of s
        → ListsOrHelp help
            (path_of s)
            (main T Regex L S (suc fuel) garbage (parsed_options o help) l w)
    unfolding main entry_of_options
    main-ListsOrHelp Regex fuel garbage help s o l w h e = elim (setup_cases o help) [
      | inl a ↦
          rw (a, main)
            (without_help help _ _ (
              subst
                (λ root. ListsOnly root (
                  cfsync T {Regex = Regex} L S (suc fuel) (job_type_of o)
                    (entry_of_options garbage o) l w))
                (ap erase_scheme e ∙ erase_scheme-text_of s h)
                (cfsync-ListsOnly fuel (job_type_of o) (entry_of_options {Regex = Regex} garbage o)
                  l w)))
      | inr (inl (x, a)) ↦
          (record { lines = []; thrown = false }, rw (a, main) refl, inl (inl refl))
      | inr (inr (inl (asked, a))) ↦
          (record { lines = T.help; thrown = false }, rw (a, main) refl, inr (asked, refl))
      | inr (inr (inr a)) ↦ (failed, rw (a, main) refl, inl (inl refl))
    ]
