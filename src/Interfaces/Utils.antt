-- ===== src/Interfaces/Utils.antt =====
-- The namespaces mlnserver::httpCoro of mlnserver/lobbyServerUtils.h and mlnserver::stringUtils of
-- mlnserver/stringUtils.hpp.
use mlnserver_web.Prelude.{ℕ, Bool, Option, List, Bytes}
use mlnserver_web.Outcome.{Outcome, M}
use mlnserver_web.Platform.{Platform, HeaderMap, ErrorCode, ErrorInfo, ReadOne, TcpSslResultset}
use mlnserver_web.Process.{Process, ConnPtr}
use mlnserver_web.Http.Response.{Response}
use mlnserver_web.Http.Build.{get_bad_request, get_server_error, get_rsponse}
use mlnserver_web.Http.Query.{
  check_error, send_query, read_one, read_all, purge_result, query_insert_and_check,
}
use mlnserver_web.Http.Template.{Callback, mysql_template}
use mlnserver_web.Session.{SessionData}
use mlnserver_web.StringUtils.{Utf8, decode_utf8, encode_utf8, conv_utf8, make_comment}

-- The wrappers of boost::mysql, the builders of responses, and the template of the handlers.
pub record HttpCoro (p : Platform) : Type 0 where
  pub check_error : ErrorCode → ErrorInfo → M (Process p) (Unit {0})
  pub send_query : ConnPtr p → Bytes → M (Process p) (TcpSslResultset p)
  pub read_one : TcpSslResultset p → M (Process p) (ReadOne (TcpSslResultset p) p.Field)
  pub read_all : TcpSslResultset p → M (Process p) (List (List p.Field))
  pub purge_result : TcpSslResultset p → M (Process p) (TcpSslResultset p)
  pub get_bad_request : Bool → ℕ → Bytes → Response
  pub get_server_error : Bool → ℕ → Bytes → Response
  pub get_rsponse : Bytes → Bool → ℕ → Bytes → Response
  pub mysql_template :
      HeaderMap → Bytes → Bool → ℕ → Option SessionData → Callback p → M (Process p) (Unit {0})
  pub query_insert_and_check :
      TcpSslResultset p → ConnPtr p → Bytes → ℕ → M (Process p) (Bool × TcpSslResultset p)

-- With a number of rounds for the loop of `purgeResult`.
pub http_coro : (p : Platform) → ℕ → HttpCoro p
http_coro p rounds = record {
  check_error = check_error p;
  send_query = send_query p;
  read_one = read_one p;
  read_all = read_all p;
  purge_result = purge_result p rounds;
  get_bad_request = get_bad_request p;
  get_server_error = get_server_error p;
  get_rsponse = get_rsponse p;
  mysql_template = mysql_template p;
  query_insert_and_check = query_insert_and_check p rounds;
}

-- The conversions of texts, with the width of a `wchar_t`.
pub record StringUtils : Type 0 where
  pub decode_utf8 : Bytes → M (List ℕ) (Unit {0})
  pub encode_utf8 : List ℕ → M Bytes (Unit {0})
  pub conv_utf8 : M Bytes (Unit {0})
  pub make_comment : List ℕ → Outcome Bytes

pub string_utils : Utf8 → ℕ → StringUtils
string_utils utf8 width = record {
  decode_utf8 = decode_utf8 utf8;
  encode_utf8 = encode_utf8 utf8;
  conv_utf8 = conv_utf8 utf8 width;
  make_comment = make_comment utf8;
}
