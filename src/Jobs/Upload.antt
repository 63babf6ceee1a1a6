-- ===== src/Jobs/Upload.antt =====
-- `upload` and `makeConditionalUploadJob` of src/jobs/upload.cpp.
use cdnalizerd.Base.{ℕ, Bool, ◌&&◌, ◌||◌, [], ◌∷◌, none, some, ◌==◌, ltb, length, if◌then◌else◌}
use cdnalizerd.Base.Text.{Text, codes, is_empty, text_eq}
use cdnalizerd.Url.Parser.{Url}
use cdnalizerd.Jobs.Http.{
  system_error, boost_exception, other_exception, Try, ok, throw, head, put, Request, Response,
  Outside, Connection, set_field, set_default_headers, set_bare_headers, send,
}
use cdnalizerd.Jobs.Md5.{md5_from_file}

-- The statuses that end an upload without an exception: accepted, created, unauthorized,
-- length_required and unprocessable_entity.
unfoldable is_quiet_status : ℕ → Bool
is_quiet_status s = s == 202 || s == 201 || s == 401 || s == 411 || s == 422

-- The `switch` over the response.
unfoldable pub check_upload : Try Response → Try Unit
unfolding is_quiet_status
check_upload (throw e) = throw e
check_upload (ok r) = if is_quiet_status r.status then ok tt else throw boost_exception

unfoldable pub put_request : (o : Outside) → Url → Text → Text → ℕ → Request
unfolding set_field set_default_headers
put_request o dest token md5 size =
    let f1 = set_default_headers o.user_agent [] token in
    let f2 = set_field f1 (codes "ETag") md5 in
    let f3 = set_field f2 (codes "Host") dest.host in
    record {
      verb = put;
      target = dest.path_and_search;
      fields = set_field f3 (codes "Content-Length") (o.to_string size);
    }

-- The digest that was given, or else the file's.
unfoldable pub upload_md5 : (o : Outside) → Text → Text → o.World → Try Text
unfolding md5_from_file
upload_md5 o source md5 w =
    if is_empty md5 && ltb 0 (length source) then md5_from_file o source w else ok md5

-- From the request on.
unfoldable pub upload_request :
    (o : Outside) → Text → Url → Text → Text → Connection o.World → Try Unit × Connection o.World
unfolding put_request send check_upload
upload_request o source dest token md5 c = elim (o.open_body source c.world) [
  | none ↦ (throw system_error, c)
  | some size ↦
      let (reply, c') = send o (put_request o dest token md5 size) c in (check_upload reply, c')
]

-- The `try` block of `upload`.
unfoldable pub upload_body :
    (o : Outside) → Text → Url → Text → Text → Connection o.World → Try Unit × Connection o.World
unfolding upload_md5 upload_request
upload_body o source dest token md5 c = elim (o.file_size source c.world) [
  | throw e ↦ (throw e, c)
  | ok size ↦ if size == 0 then (ok tt, c) else elim (upload_md5 o source md5 c.world) [
    | throw e ↦ (throw e, c)
    | ok sum ↦ upload_request o source dest token sum c
  ]
]

-- The handlers of `upload` log what they catch.
unfoldable pub catch_upload : Try Unit → Try Unit
catch_upload (throw other_exception) = throw other_exception
catch_upload _ = ok tt

unfoldable pub upload :
    (o : Outside) → Text → Url → Text → Text → Connection o.World → Try Unit × Connection o.World
unfolding upload_body catch_upload
upload o source dest token md5 c =
    let (result, c') = upload_body o source dest token md5 c in (catch_upload result, c')

unfoldable pub head_request : (o : Outside) → Url → Text → Request
unfolding set_bare_headers
head_request o dest token = record {
  verb = head;
  target = dest.path;
  fields = set_bare_headers o.user_agent dest.host token;
}

-- From the response on: the server's copy is missing, cannot be asked for, or has a digest.
unfoldable pub compare_and_upload :
    (o : Outside)
    → Text
    → Url
    → Text
    → Text
    → Response
    → Connection o.World
    → Try Unit × Connection o.World
unfolding upload
compare_and_upload o source dest token md5 r c =
    if r.status == 404
    then upload o source dest token md5 c
    else if r.status == 200
    then if text_eq md5 r.etag then (ok tt, c) else upload o source dest token md5 c
    else (throw boost_exception, c)

-- The `try` block of the conditional upload, with the digest of the file.
unfoldable pub conditional_upload_body :
    (o : Outside) → Text → Url → Text → Connection o.World → Try Unit × Connection o.World
unfolding md5_from_file head_request send compare_and_upload
conditional_upload_body o source dest token c = elim (md5_from_file o source c.world) [
  | throw e ↦ (throw e, c)
  | ok [] ↦ (ok tt, c)
  | ok (d ∷ md5) ↦
      let (reply, c') = send o (head_request o dest token) c in
      elim reply [
        | throw e ↦ (throw e, c')
        | ok r ↦ compare_and_upload o source dest token (d ∷ md5) r c'
      ]
]

-- The job's function: `catch (...)` is the last handler.
unfoldable pub conditional_upload :
    (o : Outside) → Text → Url → Text → Connection o.World → Try Unit × Connection o.World
unfolding conditional_upload_body
conditional_upload o source dest token c =
    (ok tt, (conditional_upload_body o source dest token c).1)
