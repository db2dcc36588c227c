-- ===== src/Http/Status.antt =====
-- lib/http-server/src/http_response.rs: the version and the status of a response.
use pheidippides.Prelude.{Text, codes}

pub data HttpStatusCode : Type 0 where
  ok bad_request see_other internal_server_error : HttpStatusCode

unfoldable pub status_text : HttpStatusCode → Text
status_text ok = codes "200 OK"
status_text bad_request = codes "400 Bad Request"
status_text see_other = codes "303 See Other"
status_text internal_server_error = codes "500 Internal Server Error"

pub data HttpVersion : Type 0 where
  http11 : HttpVersion

unfoldable pub version_text : HttpVersion → Text
version_text http11 = codes "HTTP/1.1"
