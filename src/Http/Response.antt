-- ===== src/Http/Response.antt =====
-- The HTTP responses that mlnserver/lobbyServerUtils.h builds. The header fields that the code sets
-- have a field each; `none` is a header that was not set.
use mlnserver_web.Prelude.{ℕ, Bool, Option, none, Bytes}

pub data Status : Type 0 where
  ok_200 bad_request_400 internal_server_error_500 : Status

pub record Response : Type 0 where
  pub status : Status
  pub version : ℕ
  pub server : Option Bytes
  pub content_type : Option Bytes
  pub mbbodyresult : Option Bytes
  pub content_length : Option ℕ
  pub keep_alive : Option Bool
  pub body : Bytes

-- `response<string_body> res{ status, version }`, with a body.
abbrev pub new_response : Status → ℕ → Bytes → Response
new_response status version body = record {
  status = status;
  version = version;
  server = none;
  content_type = none;
  mbbodyresult = none;
  content_length = none;
  keep_alive = none;
  body = body;
}
