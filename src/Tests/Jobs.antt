-- ===== src/Tests/Jobs.antt =====
-- Jobs at concrete data: files of one byte, a digest of one byte, and servers that answer alike.
use cdnalizerd.Base.{
  ℕ, zero, suc, ◌+◌, ◌<◌, ◌≡◌, ◌⊎◌, ◌↔◌, refl, true, false, List, [], ◌∷◌, ◌++◌, none, some, arith,
  Each, if◌then◌else◌,
}
use cdnalizerd.Base.Text.{Text, codes}
use cdnalizerd.Url.Parser.{Url, empty_url}
use cdnalizerd.Jobs.Http.{ok, Outside, Connection}
use cdnalizerd.Jobs.Md5.{hex}
use cdnalizerd.Jobs.Upload.{put_request, head_request, conditional_upload}
use cdnalizerd.Jobs.{upload_task, run_task}
use cdnalizerd.Jobs.Laws.{conditional_upload-sent}

abbrev pub answering : ℕ → Text → Outside
answering status etag = record {
  World = ℕ;
  is_regular_file = λ f w. ok true;
  mapped = λ f w. ok f;
  md5 = λ t. 171 ∷ [];
  file_size = λ f w. ok 1;
  open_body = λ f w. some 1;
  exchange = λ request w. (ok (record { status = status; etag = etag }), suc w);
  user_agent = codes "agent";
  to_string = λ n. (b'0' + n) ∷ [];
}

abbrev pub fresh : Connection ℕ
fresh = record { sent = []; world = 0 }

abbrev remote : Url
remote = record empty_url { host = codes "h"; path = codes "/c/a"; path_and_search = codes "/c/a" }

-- A server that fails: the upload ends well all the same.
run_task_failing :
    (run_task (answering 500 []) (upload_task (codes "a") remote) (codes "t") fresh).0 ≡ ok tt
unfolding run_task
run_task_failing = refl

conditional_upload-sent_example :
    (conditional_upload (answering 200 (codes "other")) (codes "a") remote (codes "t") fresh).1.sent
    ≡ head_request (answering 200 (codes "other")) remote (codes "t")
      ∷ put_request (answering 200 (codes "other")) remote (codes "t") (codes "ab") 1
      ∷ []
unfolding hex cdnalizerd.Base.Text.text_eq
conditional_upload-sent_example =
    conditional_upload-sent (answering 200 (codes "other")) (codes "a") remote (codes "t")
      (codes "a") b'a' (codes "b") fresh (record { status = 200; etag = codes "other" }) 1 0 1 refl
      refl refl refl refl refl
