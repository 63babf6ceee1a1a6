-- ===== src/Watcher/Keeps.antt =====
-- What a round of the loop of src/processes/mainProcess.cpp keeps, branch by branch.
use cdnalizerd.Base.{ℕ, ◌≡◌, refl, Bool, Option, none, some, ltb}
use cdnalizerd.Base.Text.{Text}
use cdnalizerd.Base.Holds.{Holds, nothing, result, Holds-if}
use cdnalizerd.Config.{ConfigEntry}
use cdnalizerd.Url.Parser.{Url}
use cdnalizerd.Job.{Job}
use cdnalizerd.Jobs.{Task}
use cdnalizerd.Inotify.{Watch, Event, was_closed, was_ignored, was_deleted, was_created, is_dir}
use cdnalizerd.Watcher.{
  Files, Watcher, and_then, watch_new_directory, give_job, file_closed, file_deleted, watch_ignored,
  react,
}

pub Holds-and_then :
    {A B : Type 0} (P : B → Type 0) (o : Option A) (f : A → Option B)
    → ((a : A) → o ≡ some a → Holds P (f a))
    → Holds P (and_then o f)
unfolding and_then
Holds-and_then P none f h = nothing
Holds-and_then P (some a) f h = h a refl

pub Holds-bind :
    {A B : Type 0} {P : A → Type 0} {Q : B → Type 0} {o : Option A} {f : A → Option B}
    → Holds P o
    → ((a : A) → P a → Holds Q (f a))
    → Holds Q (and_then o f)
unfolding and_then
Holds-bind nothing k = nothing
Holds-bind (result x) k = k _ x

module _ {Regex : Type 0} (files : Files Regex) (kernel : Text → Option ℕ)
    (P : Watcher Regex → Type 0) where
  abbrev KeptByJobs : Watcher Regex → Type 0
  KeptByJobs s = (url : Text) (i : ℕ) (job : Job Task × ℕ) → P (give_job files kernel s url i job)

  file_closed-Holds :
      (s : Watcher Regex) (entry : ConfigEntry Regex) (url : Url) (i : ℕ)
      (local_file relative : Text)
      → P s
      → KeptByJobs s
      → Holds P (file_closed files kernel s entry url i local_file relative)
  unfolding file_closed
  file_closed-Holds s entry url i local_file relative p gives = Holds-and_then P _ _ (λ size e.
      Holds-if P (ltb 0 size) _ (some s)
        (Holds-if P _ (some s) _ (result p) (Holds-and_then P _ _ (λ dest f. result (gives _ _ _))))
        (result p))

  file_deleted-Holds :
      (s : Watcher Regex) (entry : ConfigEntry Regex) (url : Url) (i : ℕ)
      (local_file relative : Text) (directory : Bool)
      → P s
      → KeptByJobs s
      → Holds P (file_deleted files kernel s entry url i local_file relative directory)
  unfolding file_deleted
  file_deleted-Holds s entry url i local_file relative directory p gives =
      Holds-if P directory (some s) _ (result p)
        (Holds-if P _ (some s) _ (result p) (Holds-and_then P _ _ (λ dest f. result (gives _ _ _))))

  -- A round keeps what a job, the end of its watch, and the watch of a new directory keep.
  pub react-Holds :
      (s : Watcher Regex) (event : Event) (watch : Watch) (entry : ConfigEntry Regex) (url : Url)
      (i : ℕ) (relative : Text)
      → P s
      → KeptByJobs s
      → P (watch_ignored files kernel s watch)
      → Holds P (watch_new_directory files kernel s entry (files.path_div watch.path event.name))
      → Holds P (react files kernel s event watch entry url i relative)
  unfolding react
  react-Holds s event watch entry url i relative p gives ignored new =
      let local_file = files.path_div watch.path event.name in
      Holds-if P (was_closed event) _ _
        (file_closed-Holds s entry url i local_file relative p gives)
        (Holds-if P (was_ignored event) (some (watch_ignored files kernel s watch)) _
          (result ignored)
          (Holds-if P (was_deleted event) _ _
            (file_deleted-Holds s entry url i local_file relative (is_dir event) p gives)
            (Holds-if P (was_created event) _ (some s)
              (Holds-if P (is_dir event) _ (some s) new (result p)) (result p))))
