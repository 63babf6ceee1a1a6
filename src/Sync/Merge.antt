-- ===== src/Sync/Merge.antt =====
-- The merge of src/processes/syncAllDirectories.cpp against what it is for: which local files differ
-- from the remote ones.
pub mod Paths
use cdnalizerd.Base.{
  flat, ℕ, ◌≡◌, ◌≢◌, ◌⊎◌, inl, inr, refl, sym, ap, subst, ◌∙◌, Bool, true, false, ◌&&◌, not, List,
  [], ◌∷◌, ◌++◌, Option, none, some, ltb, if◌then◌else◌, ◌>>=◌, Bool-cases, Option-cases, Each,
  Each-imp,
}
use cdnalizerd.Base.Text.{
  Text, text_eq, text_eq→eq, eq→text_eq, text_lt, text_lt_trans, text_lt_irrefl, text_lt-total,
}
use cdnalizerd.Utils.{slash, un_join_paths}
use cdnalizerd.Config.{ConfigEntry}
use cdnalizerd.Url.Parser.{Url}
use cdnalizerd.Sync.{
  RemoteFile, Disk, Queues, upload_file, upload_filled, upload_newer, against, sync_page,
  sync_pages,
}
use cdnalizerd.Sync.Merge.Paths.{
  View, here, filter_paths, filter_paths_agree, Each-split, true_not_false, Each-rest, bind_agree,
  lt_not_eq, gt_not_eq, greater, IsView,
}

module _ {Regex : Type 0} (disk : Disk Regex) (base : Url) (config : ConfigEntry Regex)
    (v : View) where
  abbrev there : RemoteFile → Text
  there r = un_join_paths config.remote_dir r.name

  -- The local file is newer than the remote one of its name, or there is none.
  abbrev is_newer : List RemoteFile → Text → Bool
  is_newer [] p = true
  is_newer (r ∷ rs) p =
      if text_eq (here v p) (there r)
      then ltb (v.remote_time r.last_modified) (v.time p)
      else is_newer rs p

  -- What the synchronisation is for: a file that is not empty, and is new or newer.
  abbrev pub is_wanted : List RemoteFile → Text → Bool
  is_wanted remotes p = not (v.is_dir p) && (ltb 0 (v.size p) && is_newer remotes p)

  -- Calls of `upload` one by one, which leaves out the files that are ignored.
  abbrev pub upload_all : List Text → Queues → Option Queues
  upload_all [] q = some q
  upload_all (p ∷ ps) q = upload_file disk base config p (here v p) q >>= upload_all ps

  -- A file comes behind a relative path; directories come anywhere.
  abbrev pub Behind : Text → Text → Type 0
  Behind t p = (v.is_dir p ≡ true) ⊎ (text_lt t (here v p) ≡ true)

  -- Strictly ascending by relative path, directories left aside.
  abbrev pub IsSortedLocal : List Text → Type 0
  IsSortedLocal [] = Unit
  IsSortedLocal (p ∷ ps) = ((v.is_dir p ≡ true) ⊎ Each (Behind (here v p)) ps) × IsSortedLocal ps

  abbrev pub IsSortedRemote : List RemoteFile → Type 0
  IsSortedRemote [] = Unit
  IsSortedRemote (r ∷ rs) = Each (λ s. text_lt (there r) (there s) ≡ true) rs × IsSortedRemote rs

  abbrev pub IsNewOrDir : List RemoteFile → Text → Type 0
  IsNewOrDir remotes p = (v.is_dir p ≡ true) ⊎ (is_newer remotes p ≡ true)

  -- Merging a page takes some of the local paths, uploads the wanted ones among them, and leaves the
  -- others.
  record Merged (remotes : List RemoteFile) (paths : List Text)
      (run : Queues → Option (List Text × Queues)) : Type 0 where
    taken : List Text
    left : List Text
    parts : paths ≡ taken ++ left
    fresh : Each (IsNewOrDir remotes) left
    does :
        (q : Queues)
        → run q ≡ (upload_all (filter_paths (is_wanted remotes) taken) q >>= λ r. some (left, r))

  module _ (view : IsView disk config.local_dir v) where
    upload_filled-view :
        (p : Text) (q : Queues)
        → upload_filled disk base config p (here v p) q
          ≡ (if ltb 0 (v.size p) then upload_file disk base config p (here v p) q else some q)
    unfolding upload_filled
    upload_filled-view p q = rw (view.file_size p) refl

    upload_newer-view :
        (p : Text) (r : RemoteFile) (q : Queues)
        → upload_newer disk base config p (here v p) r q ≡ (
            if ltb (v.remote_time r.last_modified) (v.time p)
            then upload_filled disk base config p (here v p) q
            else some q)
    unfolding upload_newer
    upload_newer-view p r q = rw (view.last_write_time p, view.remote_time r.last_modified) refl

    -- One round of the inner loop, in the words of the view.
    against-view :
        (r : RemoteFile) (next : List Text → Queues → Option (List Text × Queues)) (p : Text)
        (ps : List Text) (q : Queues)
        → against disk base config r next (p ∷ ps) q ≡ (
            if v.is_dir p
            then against disk base config r next ps q
            else if text_eq (here v p) (there r)
            then (upload_newer disk base config p (here v p) r q >>= λ t. next ps t)
            else if text_lt (here v p) (there r)
            then (upload_filled disk base config p (here v p) q >>= λ t.
                against disk base config r next ps t)
            else next (p ∷ ps) q)
    unfolding against
    against-view r next p ps q = rw (view.is_directory p, view.relative p, against) refl

    -- A file that is left alone, and one that is looked at, in front of what is taken.
    Merged-skip :
        (remotes : List RemoteFile) (p : Text) (ps : List Text)
        (run : Queues → Option (List Text × Queues)) (later : Queues → Option (List Text × Queues))
        → is_wanted remotes p ≡ false
        → ((q : Queues) → run q ≡ later q)
        → Merged remotes ps later
        → Merged remotes (p ∷ ps) run
    Merged-skip remotes p ps run later w e m = record {
      taken = p ∷ m.taken;
      left = m.left;
      parts = ap (◌∷◌ p) m.parts;
      fresh = m.fresh;
      does = λ q. e q ∙ rw w (m.does q);
    }

    Merged-take :
        (remotes : List RemoteFile) (p : Text) (ps : List Text)
        (run : Queues → Option (List Text × Queues)) (later : Queues → Option (List Text × Queues))
        → is_wanted remotes p ≡ true
        → ((q : Queues) → run q ≡ (upload_file disk base config p (here v p) q >>= later))
        → Merged remotes ps later
        → Merged remotes (p ∷ ps) run
    Merged-take remotes p ps run later w e m = record {
      taken = p ∷ m.taken;
      left = m.left;
      parts = ap (◌∷◌ p) m.parts;
      fresh = m.fresh;
      does = λ q. e q ∙ elim (Option-cases (upload_file disk base config p (here v p) q)) [
        | inl n ↦ rw (w, n) refl
        | inr (t, n) ↦ rw (w, n) (m.does t)
      ];
    }

    Merged-same :
        (remotes : List RemoteFile) (ps : List Text)
        (run later : Queues → Option (List Text × Queues))
        → ((q : Queues) → run q ≡ later q)
        → Merged remotes ps later
        → Merged remotes ps run
    Merged-same remotes ps run later e m = record {
      taken = m.taken;
      left = m.left;
      parts = m.parts;
      fresh = m.fresh;
      does = λ q. e q ∙ m.does q;
    }

    -- A file that is not wanted by its size, or wanted by `newer`.
    Merged-file :
        (remotes : List RemoteFile) (p : Text) (ps : List Text) (newer : Bool)
        (run later : Queues → Option (List Text × Queues))
        → v.is_dir p ≡ false
        → is_newer remotes p ≡ newer
        → ((q : Queues)
            → run q ≡ (
                (if newer then upload_filled disk base config p (here v p) q else some q)
                >>= later))
        → Merged remotes ps later
        → Merged remotes (p ∷ ps) run
    Merged-file remotes p ps true run later d n e m = elim (Bool-cases (ltb 0 (v.size p))) [
      | inl s ↦
          Merged-take remotes p ps run later (rw (d, s, n) refl)
            (λ q. e q ∙ rw (upload_filled-view p q, s) refl) m
      | inr s ↦
          Merged-skip remotes p ps run later (rw (d, s) refl)
            (λ q. e q ∙ rw (upload_filled-view p q, s) refl) m
    ]
    Merged-file remotes p ps false run later d n e m = elim (Bool-cases (ltb 0 (v.size p))) [
      | inl s ↦ Merged-skip remotes p ps run later (rw (d, s, n) refl) e m
      | inr s ↦ Merged-skip remotes p ps run later (rw (d, s) refl) e m
    ]

    -- A remote file before all the local ones changes nothing.
    is_wanted-cons :
        (r : RemoteFile) (rs : List RemoteFile) (p : Text)
        → Behind (there r) p
        → is_wanted (r ∷ rs) p ≡ is_wanted rs p
    is_wanted-cons r rs p (inl d) = rw d refl
    is_wanted-cons r rs p (inr l) = rw (gt_not_eq (here v p) (there r) l) refl

    fresh_behind :
        (r : RemoteFile) (rs : List RemoteFile) (ps : List Text)
        → Each (Behind (there r)) ps
        → Each (IsNewOrDir rs) ps
        → Each (IsNewOrDir (r ∷ rs)) ps
    fresh_behind r rs [] b f = tt
    fresh_behind r rs (p ∷ ps) (inl d, b) f = (inl d, fresh_behind r rs ps b f.1)
    fresh_behind r rs (p ∷ ps) (inr l, b) (inl d, f) = (inl d, fresh_behind r rs ps b f)
    fresh_behind r rs (p ∷ ps) (inr l, b) (inr n, f) =
        (inr (rw (gt_not_eq (here v p) (there r) l) n), fresh_behind r rs ps b f)

    Merged-weaken :
        (r : RemoteFile) (rs : List RemoteFile) (ps : List Text)
        (run : Queues → Option (List Text × Queues))
        → Each (Behind (there r)) ps
        → Merged rs ps run
        → Merged (r ∷ rs) ps run
    Merged-weaken r rs ps run behind m =
        let split = subst (Each (Behind (there r))) m.parts behind in
        let agree =
          Each-imp (Behind (there r)) (λ p. is_wanted rs p ≡ is_wanted (r ∷ rs) p) m.taken
            (λ p b. sym (is_wanted-cons r rs p b))
            (Each-split (Behind (there r)) m.taken m.left split) in
        record {
          taken = m.taken;
          left = m.left;
          parts = m.parts;
          fresh =
              fresh_behind r rs m.left (Each-rest (Behind (there r)) m.taken m.left split) m.fresh;
          does = λ q.
              m.does q
              ∙ ap (λ l. upload_all l q >>= λ t. some (m.left, t))
                  (filter_paths_agree (is_wanted rs) (is_wanted (r ∷ rs)) m.taken agree);
        }

    newer_than_none :
        (rs : List RemoteFile) (p : Text)
        → Each (λ s. text_lt (here v p) (there s) ≡ true) rs
        → is_newer rs p ≡ true
    newer_than_none [] p h = refl
    newer_than_none (r ∷ rs) p h =
        rw (lt_not_eq (here v p) (there r) h.0) (newer_than_none rs p h.1)

    Behind-trans : (a b p : Text) → text_lt a b ≡ true → Behind b p → Behind a p
    Behind-trans a b p l (inl d) = inl d
    Behind-trans a b p l (inr m) = inr (text_lt_trans a b (here v p) l m)

    -- The files after a file are behind it.
    Behind-file :
        (p : Text) (ps : List Text)
        → v.is_dir p ≡ false
        → IsSortedLocal (p ∷ ps)
        → Each (Behind (here v p)) ps
    Behind-file p ps d (inl e, s) = absurd (true_not_false (sym e ∙ d))
    Behind-file p ps d (inr b, s) = b

    merge_against :
        (r : RemoteFile) (rs : List RemoteFile)
        (next : List Text → Queues → Option (List Text × Queues))
        → ((ps : List Text) → IsSortedLocal ps → Merged rs ps (next ps))
        → IsSortedRemote (r ∷ rs)
        → (ps : List Text) → IsSortedLocal ps
        → Merged (r ∷ rs) ps (against disk base config r next ps)
    unfolding against
    merge_against r rs next later sorted [] s = record {
      taken = [];
      left = [];
      parts = refl;
      fresh = tt;
      does = λ q. refl;
    }
    merge_against r rs next later sorted (p ∷ ps) s =
        let run = against disk base config r next (p ∷ ps) in
        let onward = merge_against r rs next later sorted ps s.1 in
        elim (Bool-cases (v.is_dir p)) [
          | inl d ↦
              Merged-skip (r ∷ rs) p ps run (against disk base config r next ps) (rw d refl)
                (λ q. against-view r next p ps q ∙ rw d refl) onward
          | inr d ↦
              let behind = Behind-file p ps d s in
              elim (Bool-cases (text_eq (here v p) (there r))) [
                | inl e ↦
                    Merged-file (r ∷ rs) p ps (ltb (v.remote_time r.last_modified) (v.time p)) run
                      (next ps) d (rw e refl)
                      (λ q. against-view r next p ps q ∙ rw (d, e, upload_newer-view p r q) refl)
                      (Merged-weaken r rs ps (next ps)
                        (subst (λ t. Each (Behind t) ps) (text_eq→eq (here v p) (there r) e) behind)
                        (later ps s.1))
                | inr e ↦ elim (Bool-cases (text_lt (here v p) (there r))) [
                  | inl l ↦
                      Merged-file (r ∷ rs) p ps true run (against disk base config r next ps) d
                        (rw e (
                          newer_than_none rs p (
                            Each-imp _ _ rs
                              (λ t k. text_lt_trans (here v p) (there r) (there t) l k) sorted.0)))
                        (λ q. against-view r next p ps q ∙ rw (d, e, l) refl) onward
                  | inr l ↦
                      let g = greater (here v p) (there r) e l in
                      Merged-same (r ∷ rs) (p ∷ ps) run (next (p ∷ ps))
                        (λ q. against-view r next p ps q ∙ rw (d, e, l) refl)
                        (Merged-weaken r rs (p ∷ ps) (next (p ∷ ps))
                          (
                            inr g,
                            Each-imp _ _ ps (λ t b. Behind-trans (there r) (here v p) t g b) behind,
                          )
                          (later (p ∷ ps) s))
                ]
              ]
        ]

    all_new : (ps : List Text) → Each (IsNewOrDir []) ps
    all_new [] = tt
    all_new (p ∷ ps) = (inr refl, all_new ps)

    merge_page :
        (page : List RemoteFile)
        → IsSortedRemote page
        → (ps : List Text) → IsSortedLocal ps
        → Merged page ps (sync_page disk base config page ps)
    unfolding sync_page
    merge_page [] sorted ps s = record {
      taken = [];
      left = ps;
      parts = refl;
      fresh = all_new ps;
      does = λ q. refl;
    }
    merge_page (r ∷ rs) sorted ps s =
        merge_against r rs (sync_page disk base config rs) (merge_page rs sorted.1) sorted ps s

    -- Going on with a second page is one longer page.
    against-next :
        (r : RemoteFile) (next then_ both : List Text → Queues → Option (List Text × Queues))
        → ((ps : List Text) (q : Queues) → both ps q ≡ (next ps q >>= λ t. then_ t.0 t.1))
        → ((q : Queues) → then_ [] q ≡ some ([], q))
        → (ps : List Text) (q : Queues)
        → against disk base config r both ps q
          ≡ (against disk base config r next ps q >>= λ t. then_ t.0 t.1)
    unfolding against
    against-next r next then_ both e n [] q = sym (n q)
    against-next r next then_ both e n (p ∷ ps) q =
        rw (against-view r both p ps q, against-view r next p ps q)
          (elim (Bool-cases (v.is_dir p)) [
            | inl d ↦ rw d (against-next r next then_ both e n ps q)
            | inr d ↦ elim (Bool-cases (text_eq (here v p) (there r))) [
              | inl t ↦ elim (Option-cases (upload_newer disk base config p (here v p) r q)) [
                | inl u ↦ rw (d, t, u) refl
                | inr (x, u) ↦ rw (d, t, u) (e ps x)
              ]
              | inr t ↦ elim (Bool-cases (text_lt (here v p) (there r))) [
                | inl l ↦ elim (Option-cases (upload_filled disk base config p (here v p) q)) [
                  | inl u ↦ rw (d, t, l, u) refl
                  | inr (x, u) ↦ rw (d, t, l, u) (against-next r next then_ both e n ps x)
                ]
                | inr l ↦ rw (d, t, l) (e (p ∷ ps) q)
              ]
            ]
          ])

    sync_page-empty :
        (page : List RemoteFile) (q : Queues) → sync_page disk base config page [] q ≡ some ([], q)
    unfolding sync_page against
    sync_page-empty [] q = refl
    sync_page-empty (r ∷ page) q = refl

    sync_page-append :
        (first second : List RemoteFile) (ps : List Text) (q : Queues)
        → sync_page disk base config (first ++ second) ps q ≡ (
            sync_page disk base config first ps q >>= λ t.
            sync_page disk base config second t.0 t.1)
    unfolding sync_page
    sync_page-append [] second ps q = refl
    sync_page-append (r ∷ first) second ps q =
        against-next r (sync_page disk base config first) (sync_page disk base config second)
          (sync_page disk base config (first ++ second)) (sync_page-append first second)
          (sync_page-empty second) ps q

    sync_pages-flat :
        (pages : List (List RemoteFile)) (ps : List Text) (q : Queues)
        → sync_pages disk base config pages ps q ≡ sync_page disk base config (flat pages) ps q
    unfolding sync_pages sync_page
    sync_pages-flat [] ps q = refl
    sync_pages-flat (page ∷ pages) ps q =
        bind_agree (sync_page disk base config page ps q) _ _ (λ t. sync_pages-flat pages t.0 t.1)
        ∙ sym (sync_page-append page (flat pages) ps q)

    -- For the pages of objects that the merge is given, on a disk and for a server that never fail,
    -- with local files and remote names that each ascend strictly by their relative paths (directories
    -- anywhere), merging the pages splits the local paths in two. Of the first part exactly the wanted
    -- ones are passed on to `upload`, in order, which queues those of them that are not ignored: the
    -- wanted ones are the files that are not empty and are missing on the server or newer than there.
    -- The second part, which the pages leave over, holds no file that is on the server and not older.
    pub sync_pages-merge :
        (pages : List (List RemoteFile)) (ps : List Text)
        → IsSortedRemote (flat pages)
        → IsSortedLocal ps
        → (taken : List Text) × (left : List Text) × (ps ≡ taken ++ left)
          × Each (IsNewOrDir (flat pages)) left
          × ((q : Queues)
              → sync_pages disk base config pages ps q ≡ (
                  upload_all (filter_paths (is_wanted (flat pages)) taken) q >>= λ r.
                  some (left, r)))
    sync_pages-merge pages ps sorted s =
        let m = merge_page (flat pages) sorted ps s in
        (m.taken, m.left, m.parts, m.fresh, λ q. sync_pages-flat pages ps q ∙ m.does q)
