-- ===== src/Watcher/Jobs.antt =====
-- Which job the event of a closed file makes in src/processes/mainProcess.cpp.
use cdnalizerd.Base.{ℕ, suc, ◌≡◌, refl, ◌∙◌, true, false, List, Option, some, arith, ◌==◌, ltb}
use cdnalizerd.Base.Text.{Text, text_eq}
use cdnalizerd.Base.Maps.{find}
use cdnalizerd.Config.{ConfigEntry, should_ignore_file}
use cdnalizerd.Url.{destination}
use cdnalizerd.Url.Parser.{Url, parsed}
use cdnalizerd.Account.{Rackspace, get_url}
use cdnalizerd.Job.{make_job}
use cdnalizerd.Jobs.{make_conditional_upload_job}
use cdnalizerd.Worker.Manager.{get_worker, submit}
use cdnalizerd.Inotify.{Watch, Event, was_closed}
use cdnalizerd.Watcher.{
  Files, Watcher, and_then, entry_at, give_job, address, file_closed, react, handle_event,
}

positive : (n : ℕ) → ltb 0 (suc n) ≡ true
positive n = ground arith

module _ {Regex : Type 0} (files : Files Regex) (accounts : List (Text × Rackspace)) where
  -- What the loop looks up for an event, up to the relative path.
  pub record IsFound (s : Watcher Regex) (event : Event) (watch : Watch) (entry : ConfigEntry Regex)
      (url : Url) (relative : Text) : Type 0 where
    pub rs : Rackspace
    pub watch_found : find ◌==◌ s.inotify.watches event.wd ≡ some watch
    pub entry_found : find ◌==◌ s.watch_to_config watch.handle ≡ some entry
    pub account_found : find text_eq accounts entry.username ≡ some rs
    pub url_found : get_url rs entry.region entry.snet ≡ some url
    pub relative_found :
        files.relative (files.path_div watch.path event.name) entry.local_dir ≡ some relative

  module _ (kernel : Text → Option ℕ) where
    -- The event's worker is asked for whatever the event is.
    abbrev with_worker : Watcher Regex → Url → Watcher Regex
    with_worker s url = record s { workers = (get_worker s.workers url.raw).0 }

    entry_at-found :
        (s : Watcher Regex) (h : ℕ) (entry : ConfigEntry Regex)
        → find ◌==◌ s.watch_to_config h ≡ some entry
        → entry_at files kernel s h ≡ (entry, s)
    unfolding entry_at
    entry_at-found s h entry e = rw (e, entry_at) refl

    and_then-some :
        {A B : Type 0} (o : Option A) (a : A) (f : A → Option B) → o ≡ some a → and_then o f ≡ f a
    unfolding and_then
    and_then-some o a f e = rw e refl

    handle_event-react :
        (s : Watcher Regex) (event : Event) (watch : Watch) (entry : ConfigEntry Regex) (url : Url)
        (relative : Text)
        → IsFound s event watch entry url relative
        → handle_event files kernel accounts s event
          ≡ react files kernel
              (with_worker s url)
              event
              watch
              entry
              url
              (get_worker s.workers url.raw).1
              relative
    unfolding handle_event
    handle_event-react s event watch entry url relative found =
        and_then-some _ watch _ found.watch_found
        ∙ rw (entry_at-found s watch.handle entry found.entry_found) (
            and_then-some _ found.rs _ found.account_found
            ∙ and_then-some _ url _ found.url_found
            ∙ and_then-some _ relative _ found.relative_found)

    address-parsed :
        (url dest : Url) (entry : ConfigEntry Regex) (relative : Text)
        → destination url entry.container entry.remote_dir relative ≡ some (parsed dest)
        → address files kernel url entry relative ≡ some dest
    unfolding address
    address-parsed url dest entry relative e = and_then-some _ (parsed dest) _ e

    -- When a file that is not empty and not ignored was closed, and its address is one, the event
    -- submits one conditional upload of the file to that address, and changes nothing else.
    pub handle_event-closed :
        (s : Watcher Regex) (event : Event) (watch : Watch) (entry : ConfigEntry Regex)
        (url dest : Url) (relative : Text) (n : ℕ)
        → IsFound s event watch entry url relative
        → was_closed event ≡ true
        → files.file_size (files.path_div watch.path event.name) ≡ some (suc n)
        → should_ignore_file files.regex_search entry (files.path_div watch.path event.name) ≡ false
        → destination url entry.container entry.remote_dir relative ≡ some (parsed dest)
        → handle_event files kernel accounts s event
          ≡ some (record s {
            workers =
                submit s.workers url.raw
                  (make_conditional_upload_job s.next_id
                    (files.path_div watch.path event.name)
                    dest).0;
            next_id = suc s.next_id;
          })
    unfolding react file_closed give_job submit make_conditional_upload_job make_job
    handle_event-closed s event watch entry url dest relative n found closed size heard there =
        handle_event-react s event watch entry url relative found
        ∙ rw closed (
            and_then-some _ (suc n) _ size
            ∙ rw (positive n, heard)
                (and_then-some _ dest _ (address-parsed url dest entry relative there)))
