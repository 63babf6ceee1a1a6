-- ===== src/Jobs/Delete.antt =====
-- `deleteRemoteFile` of src/jobs/delete.cpp.
use cdnalizerd.Base.{◌||◌, ◌==◌, if◌then◌else◌}
use cdnalizerd.Base.Text.{Text}
use cdnalizerd.Url.Parser.{Url}
use cdnalizerd.Jobs.Http.{
  boost_exception, Try, ok, throw, delete, Request, Response, Outside, Connection, set_bare_headers,
  send,
}

unfoldable pub delete_request : (o : Outside) → Url → Text → Request
unfolding set_bare_headers
delete_request o dest token = record {
  verb = delete;
  target = dest.path;
  fields = set_bare_headers o.user_agent dest.host token;
}

-- The `switch`: not_found and no_content are as good as a deletion.
unfoldable pub check_delete : Try Response → Try Unit
check_delete (throw e) = throw e
check_delete (ok r) = if r.status == 404 || r.status == 204 then ok tt else throw boost_exception

unfoldable pub delete_remote_file :
    (o : Outside) → Url → Text → Connection o.World → Try Unit × Connection o.World
unfolding delete_request send check_delete
delete_remote_file o dest token c =
    let (reply, c') = send o (delete_request o dest token) c in (check_delete reply, c')
