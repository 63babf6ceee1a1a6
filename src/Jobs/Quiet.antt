-- ===== src/Jobs/Quiet.antt =====
-- Which failures the handlers of src/jobs/upload.cpp catch.
use cdnalizerd.Base.{
  ◌≡◌, refl, Bool, true, false, [], ◌==◌, if◌then◌else◌, inl, inr, Option-cases, ltb, length, ◌&&◌,
}
use cdnalizerd.Base.Text.{Text, is_empty}
use cdnalizerd.Url.Parser.{Url}
use cdnalizerd.Jobs.Http.{
  system_error, boost_exception, std_exception, other_exception, Try, ok, throw, Request, Response,
  Outside, Connection, send,
}
use cdnalizerd.Jobs.Md5.{md5_from_file}
use cdnalizerd.Jobs.Upload.{
  catch_upload, check_upload, upload, upload_body, upload_request, upload_md5, put_request,
  conditional_upload,
}
use cdnalizerd.Jobs.{Task, upload_task, conditional_upload_task, remote_delete_task, run_task}

-- No exception but those of the standard library and of boost.
abbrev pub IsCaught : {A : Type 0} → Try A → Type 0
IsCaught (throw other_exception) = ⊥
IsCaught _ = Unit

-- The file system and the connection throw no others.
pub record IsStandard (o : Outside) : Type 0 where
  pub file_size : (f : Text) (w : o.World) → IsCaught (o.file_size f w)
  pub exchange : (r : Request) (w : o.World) → IsCaught (o.exchange r w).0

catch_upload-caught : (r : Try Unit) → IsCaught r → catch_upload r ≡ ok tt
unfolding catch_upload
catch_upload-caught (ok tt) h = refl
catch_upload-caught (throw system_error) h = refl
catch_upload-caught (throw boost_exception) h = refl
catch_upload-caught (throw std_exception) h = refl
catch_upload-caught (throw other_exception) h = absurd h

check_upload-IsCaught : (r : Try Response) → IsCaught r → IsCaught (check_upload r)
unfolding check_upload
check_upload-IsCaught (throw system_error) h = tt
check_upload-IsCaught (throw boost_exception) h = tt
check_upload-IsCaught (throw std_exception) h = tt
check_upload-IsCaught (throw other_exception) h = absurd h
check_upload-IsCaught (ok r) h = quiet _
  where
    quiet : (b : Bool) → IsCaught {A = Unit} (if b then ok tt else throw boost_exception)
    quiet true = tt
    quiet false = tt

-- A step that goes on only without an exception.
IsCaught-step :
    {A C : Type 0} (t : Try A) (c : C) (next : A → Try Unit × C)
    → IsCaught t
    → ((a : A) → IsCaught (next a).0)
    → IsCaught (elim t as (λ _. Try Unit × C) [ throw e ↦ (throw e, c) | ok a ↦ next a ]).0
IsCaught-step (ok a) c next h k = k a
IsCaught-step (throw system_error) c next h k = tt
IsCaught-step (throw boost_exception) c next h k = tt
IsCaught-step (throw std_exception) c next h k = tt
IsCaught-step (throw other_exception) c next h k = absurd h

-- The tasks that upload.
abbrev pub Uploads : Task → Type 0
Uploads (remote_delete_task _) = ⊥
Uploads _ = Unit

module _ (o : Outside) where
  md5_from_file-IsCaught : (path : Text) (w : o.World) → IsCaught (md5_from_file o path w)
  unfolding md5_from_file
  md5_from_file-IsCaught path w = regular (o.is_regular_file path w)
    where
      mapped :
          (m : Try Text)
          → IsCaught {A = Text} (elim m [
            | throw _ ↦ throw boost_exception
            | ok bytes ↦ ok (cdnalizerd.Jobs.Md5.hex (o.md5 bytes))
          ])
      mapped (throw e) = tt
      mapped (ok bytes) = tt

      regular :
          (r : Try Bool)
          → IsCaught {A = Text} (elim r [
            | throw _ ↦ throw boost_exception
            | ok false ↦ ok []
            | ok true ↦ elim (o.mapped path w) [
              | throw _ ↦ throw boost_exception
              | ok bytes ↦ ok (cdnalizerd.Jobs.Md5.hex (o.md5 bytes))
            ]
          ])
      regular (throw e) = tt
      regular (ok false) = tt
      regular (ok true) = mapped (o.mapped path w)

  module _ (standard : IsStandard o) where
    upload_request-IsCaught :
        (source : Text) (dest : Url) (token md5 : Text) (c : Connection o.World)
        → IsCaught (upload_request o source dest token md5 c).0
    unfolding upload_request send
    upload_request-IsCaught source dest token md5 c =
        elim (Option-cases (o.open_body source c.world)) [
          | inl e ↦ rw (e, upload_request) tt
          | inr (size, e) ↦
              rw (e, upload_request)
                (check_upload-IsCaught _
                  (standard.exchange (put_request o dest token md5 size) c.world))
        ]

    upload_md5-IsCaught : (source md5 : Text) (w : o.World) → IsCaught (upload_md5 o source md5 w)
    unfolding upload_md5
    upload_md5-IsCaught source md5 w = digest (is_empty md5 && ltb 0 (length source))
      where
        digest : (b : Bool) → IsCaught {A = Text} (if b then md5_from_file o source w else ok md5)
        digest true = md5_from_file-IsCaught source w
        digest false = tt

    upload_body-IsCaught :
        (source : Text) (dest : Url) (token md5 : Text) (c : Connection o.World)
        → IsCaught (upload_body o source dest token md5 c).0
    unfolding upload_body
    upload_body-IsCaught source dest token md5 c =
        IsCaught-step (o.file_size source c.world) c _ (standard.file_size source c.world)
          (λ size. filled (size == 0))
      where
        filled :
            (b : Bool)
            → let result : Try Unit × Connection o.World =
                if b then (ok tt, c) else elim (upload_md5 o source md5 c.world) [
                  | throw e ↦ (throw e, c)
                  | ok sum ↦ upload_request o source dest token sum c
                ] in
              IsCaught result.0
        filled true = tt
        filled false =
            IsCaught-step (upload_md5 o source md5 c.world) c _
              (upload_md5-IsCaught source md5 c.world)
              (λ sum. upload_request-IsCaught source dest token sum c)

    upload-caught :
        (source : Text) (dest : Url) (token md5 : Text) (c : Connection o.World)
        → (upload o source dest token md5 c).0 ≡ ok tt
    unfolding upload
    upload-caught source dest token md5 c =
        catch_upload-caught _ (upload_body-IsCaught source dest token md5 c)

    pub run_task-caught :
        (task : Task) (token : Text) (c : Connection o.World)
        → Uploads task
        → (run_task o task token c).0 ≡ ok tt
    unfolding run_task conditional_upload
    run_task-caught (upload_task source dest) token c h = upload-caught source dest token [] c
    run_task-caught (conditional_upload_task source dest) token c h = refl
    run_task-caught (remote_delete_task dest) token c h = absurd h
