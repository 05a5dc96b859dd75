-- ===== src/Http/Build.antt =====
-- `getBadRequest`, `getServerError` and `getRsponse` of mlnserver/lobbyServerUtils.h.
use mlnserver_web.Prelude.{ℕ, Bool, some, [], Bytes, codes, length}
use mlnserver_web.Platform.{Platform}
use mlnserver_web.Http.Response.{
  Status, ok_200, bad_request_400, internal_server_error_500, Response, new_response,
}

module _ (p : Platform) where
  error_response : Status → Bool → ℕ → Bytes → Response
  error_response status keep_alive version why =
      p.prepare_payload (record (new_response status version []) {
        server = some p.server_name;
        content_type = some (codes "application/json");
        keep_alive = some keep_alive;
        body = why;
      })

  unfoldable pub get_bad_request : Bool → ℕ → Bytes → Response
  unfolding error_response
  get_bad_request = error_response bad_request_400

  unfoldable pub get_server_error : Bool → ℕ → Bytes → Response
  unfolding error_response
  get_server_error = error_response internal_server_error_500

  -- The last argument is "0" where the caller leaves it out.
  unfoldable pub get_rsponse : Bytes → Bool → ℕ → Bytes → Response
  get_rsponse msg keep_alive version body_msg = record (new_response ok_200 version msg) {
    server = some p.server_name;
    content_type = some (codes "application/json");
    mbbodyresult = some body_msg;
    content_length = some (length msg);
    keep_alive = some keep_alive;
  }
