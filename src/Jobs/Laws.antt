-- ===== src/Jobs/Laws.antt =====
-- What the uploads of src/jobs send.
use cdnalizerd.Base.{
  ℕ, suc, ◌≡◌, ◌∙◌, inl, inr, refl, sym, ap, not, ◌&&◌, append-nil, Bool, true, false, ◌||◌, [],
  ◌∷◌, ◌++◌, some, arith, ◌==◌, if◌then◌else◌, Bool-cases,
}
use cdnalizerd.Base.Text.{Text, text_eq}
use cdnalizerd.Url.Parser.{Url}
use cdnalizerd.Jobs.Http.{Try, ok, Request, Response, Outside, Connection, send}
use cdnalizerd.Jobs.Md5.{hex, md5_from_file}
use cdnalizerd.Jobs.Upload.{
  upload, upload_body, upload_request, upload_md5, put_request, head_request, conditional_upload,
  conditional_upload_body, compare_and_upload,
}

not_zero : (n : ℕ) → (suc n == 0) ≡ false
not_zero n = ground arith

module _ (o : Outside) where
  upload_request-sent :
      (source : Text) (dest : Url) (token md5 : Text) (c : Connection o.World) (size : ℕ)
      → o.open_body source c.world ≡ some size
      → (upload_request o source dest token md5 c).1.sent
        ≡ c.sent ++ put_request o dest token md5 size ∷ []
  unfolding upload_request send
  upload_request-sent source dest token md5 c size h = rw (h, upload_request) refl

  upload_of_body :
      (source : Text) (dest : Url) (token md5 : Text) (c : Connection o.World)
      → (upload o source dest token md5 c).1 ≡ (upload_body o source dest token md5 c).1
  unfolding upload
  upload_of_body source dest token md5 c = refl

  -- An upload of a file that is not empty, with a digest that is given, and of which the body can be
  -- opened, sends one PUT request for the address, with that digest as its tag.
  upload-sent :
      (source : Text) (dest : Url) (token : Text) (d : ℕ) (md5 : Text) (c : Connection o.World)
      (n size : ℕ)
      → o.file_size source c.world ≡ ok (suc n)
      → o.open_body source c.world ≡ some size
      → (upload o source dest token (d ∷ md5) c).1.sent
        ≡ c.sent ++ put_request o dest token (d ∷ md5) size ∷ []
  unfolding upload upload_body upload_md5
  upload-sent source dest token d md5 c n size h k =
      rw (upload_of_body source dest token (d ∷ md5) c, h, upload_body, not_zero n)
        (upload_request-sent source dest token (d ∷ md5) c size k)

  -- A request to compare with: what a conditional upload decides from the response to its HEAD
  -- request, for the digest `md5` of the file.
  abbrev pub wants_upload : Text → Response → Bool
  wants_upload md5 r = r.status == 404 || (r.status == 200 && not (text_eq md5 r.etag))

  compare_and_upload-sent :
      (source : Text) (dest : Url) (token : Text) (d : ℕ) (md5 : Text) (r : Response)
      (c : Connection o.World) (n size : ℕ)
      → o.file_size source c.world ≡ ok (suc n)
      → o.open_body source c.world ≡ some size
      → (compare_and_upload o source dest token (d ∷ md5) r c).1.sent
        ≡ c.sent
          ++ (if wants_upload (d ∷ md5) r then put_request o dest token (d ∷ md5) size ∷ [] else [])
  unfolding compare_and_upload
  compare_and_upload-sent source dest token d md5 r c n size h k =
      let e = upload-sent source dest token d md5 c n size h k in
      elim (Bool-cases (r.status == 404)) [
        | inl p ↦ rw (p, compare_and_upload) e
        | inr p ↦ elim (Bool-cases (r.status == 200)) [
          | inr q ↦ rw (p, q, compare_and_upload) (sym (append-nil c.sent))
          | inl q ↦ elim (Bool-cases (text_eq (d ∷ md5) r.etag)) [
            | inl t ↦ rw (p, q, t, compare_and_upload) (sym (append-nil c.sent))
            | inr t ↦ rw (p, q, t, compare_and_upload) e
          ]
        ]
      ]

  md5_from_file-regular :
      (source bytes : Text) (w : o.World)
      → o.is_regular_file source w ≡ ok true
      → o.mapped source w ≡ ok bytes
      → md5_from_file o source w ≡ ok (hex (o.md5 bytes))
  unfolding md5_from_file
  md5_from_file-regular source bytes w reg map = rw (reg, map, md5_from_file) refl

  sends :
      (request : Request) (c : Connection o.World) (t : Try Response) (w : o.World)
      → o.exchange request c.world ≡ (t, w)
      → send o request c ≡ (t, record { sent = c.sent ++ request ∷ []; world = w })
  unfolding send
  sends request c t w e = ap (λ x. (x.0, record { sent = c.sent ++ request ∷ []; world = x.1 })) e

  conditional_upload_of_body :
      (source : Text) (dest : Url) (token : Text) (c : Connection o.World)
      → (conditional_upload o source dest token c).1
        ≡ (conditional_upload_body o source dest token c).1
  unfolding conditional_upload
  conditional_upload_of_body source dest token c = refl

  conditional_upload_body-head :
      (source : Text) (dest : Url) (token : Text) (d : ℕ) (md5 : Text) (c : Connection o.World)
      (r : Response) (w : o.World)
      → md5_from_file o source c.world ≡ ok (d ∷ md5)
      → o.exchange (head_request o dest token) c.world ≡ (ok r, w)
      → conditional_upload_body o source dest token c
        ≡ compare_and_upload o source dest token
            (d ∷ md5)
            r
            (record { sent = c.sent ++ head_request o dest token ∷ []; world = w })
  unfolding conditional_upload_body
  conditional_upload_body-head source dest token d md5 c r w m ex =
      let e = sends (head_request o dest token) c (ok r) w ex in
      rw (m, ap (λ x. x.0) e, ap (λ x. x.1) e, conditional_upload_body) refl

  -- Take a regular file that is not empty, can be mapped and opened, and has a digest, and a server
  -- that answers the HEAD request. A conditional upload of it then sends that request, and after it
  -- one PUT request with the digest exactly if the file is missing on the server, or is there with
  -- another tag.
  pub conditional_upload-sent :
      (source : Text) (dest : Url) (token bytes : Text) (d : ℕ) (md5 : Text)
      (c : Connection o.World) (r : Response) (w : o.World) (n size : ℕ)
      → o.is_regular_file source c.world ≡ ok true
      → o.mapped source c.world ≡ ok bytes
      → hex (o.md5 bytes) ≡ d ∷ md5
      → o.exchange (head_request o dest token) c.world ≡ (ok r, w)
      → o.file_size source w ≡ ok (suc n)
      → o.open_body source w ≡ some size
      → (conditional_upload o source dest token c).1.sent
        ≡ (c.sent ++ head_request o dest token ∷ [])
          ++ (if wants_upload (d ∷ md5) r then put_request o dest token (d ∷ md5) size ∷ [] else [])
  unfolding conditional_upload conditional_upload_body md5_from_file send
  conditional_upload-sent source dest token bytes d md5 c r w n size reg map dig ex h k =
      rw
        (
          conditional_upload_of_body source dest token c,
          conditional_upload_body-head source dest token d md5 c r w
              (md5_from_file-regular source bytes c.world reg map ∙ ap ok dig) ex,
        )
        (compare_and_upload-sent source dest token d md5 r
          (record { sent = c.sent ++ head_request o dest token ∷ []; world = w }) n size h k)
