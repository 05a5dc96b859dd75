-- ===== src/Requests/Replies.antt =====
-- What the responses of the requests look like.
use mlnserver_web.Prelude.{
  ℕ, Bool, true, ◌≡◌, refl, ap, inl, inr, Option, none, some, List, [], ◌∷◌, ◌++◌, All, Bytes,
  codes, length,
}
use mlnserver_web.Platform.{Platform, Fields}
use mlnserver_web.Process.{Process}
use mlnserver_web.Http.Response.{
  Status, ok_200, bad_request_400, internal_server_error_500, Response,
}
use mlnserver_web.Http.Build.{get_bad_request, get_server_error, get_rsponse}
use mlnserver_web.Outer.{Setting, Allows, Queries}
use mlnserver_web.Outer.AnyFault.{no_condition, CallStops-any}
use mlnserver_web.Requests.{Route, handler}
use mlnserver_web.Requests.Keeps.{handler-Keeps}

-- What the code relies on of Boost.Beast: of a body that is a string, `prepare_payload` sets the
-- length and nothing else.
pub record PayloadLaws (p : Platform) : Type 0 where
  pub length_set :
      (res : Response)
      → p.prepare_payload res ≡ record res { content_length = some (length res.body) }

-- A result goes with status 200, and with no other.
abbrev pub Outcomes : Status → Option Bytes → Type 0
Outcomes ok_200 result = (text : Bytes) × (result ≡ some text)
Outcomes bad_request_400 result = result ≡ none
Outcomes internal_server_error_500 result = result ≡ none

-- A response to a request with this version and this choice of keep-alive.
pub record IsReply (p : Platform) (keep_alive : Bool) (version : ℕ) (res : Response) : Type 0 where
  pub version_kept : res.version ≡ version
  pub keep_alive_kept : res.keep_alive ≡ some keep_alive
  pub names_server : res.server ≡ some p.server_name
  pub is_json : res.content_type ≡ some (codes "application/json")
  pub is_measured : res.content_length ≡ some (length res.body)
  pub result_if_ok : Outcomes res.status res.mbbodyresult

-- The responses since a request began are all replies to it.
abbrev pub RepliesOver : (p : Platform) → Bool → ℕ → List Response → List Response → Type 0
RepliesOver p keep_alive version before now =
    (new : List Response) × (now ≡ new ++ before) × All (IsReply p keep_alive version) new

-- One more reply.
replied :
    {p : Platform} (keep_alive : Bool) (version : ℕ) (before l : List Response) (res : Response)
    → IsReply p keep_alive version res
    → RepliesOver p keep_alive version before l
    → RepliesOver p keep_alive version before (res ∷ l)
replied keep_alive version before l res reply (new, split, all) =
    (res ∷ new, ap (λ k. res ∷ k) split, (reply, all))

module _ {p : Platform} (laws : PayloadLaws p) (keep_alive : Bool) (version : ℕ) where
  bad_request-IsReply :
      (why : Bytes) → IsReply p keep_alive version (get_bad_request p keep_alive version why)
  unfolding get_bad_request
  bad_request-IsReply why = rw (laws.length_set _) (record {
    version_kept = refl;
    keep_alive_kept = refl;
    names_server = refl;
    is_json = refl;
    is_measured = refl;
    result_if_ok = refl;
  })

  server_error-IsReply :
      (why : Bytes) → IsReply p keep_alive version (get_server_error p keep_alive version why)
  unfolding get_server_error
  server_error-IsReply why = rw (laws.length_set _) (record {
    version_kept = refl;
    keep_alive_kept = refl;
    names_server = refl;
    is_json = refl;
    is_measured = refl;
    result_if_ok = refl;
  })

  rsponse-IsReply :
      (msg body_msg : Bytes)
      → IsReply p keep_alive version (get_rsponse p msg keep_alive version body_msg)
  unfolding get_rsponse
  rsponse-IsReply msg body_msg = record {
    version_kept = refl;
    keep_alive_kept = refl;
    names_server = refl;
    is_json = refl;
    is_measured = refl;
    result_if_ok = (body_msg, refl);
  }

  -- Of a request that began with the responses `before`.
  abbrev replying : List Response → Setting p
  replying before = record {
    outside = λ e. Unit {0};
    served = λ k v. (k ≡ keep_alive) × (v ≡ version);
    manager = λ m. Unit {0};
    usable = λ conn. Unit {0};
    log = RepliesOver p keep_alive version before;
    may = λ f. Unit {0};
  }

  replying-Allows : (before : List Response) → Allows p (replying before)
  replying-Allows before = record {
    calls_stop = CallStops-any;
    some_usable = λ c. tt;
    failed_usable = λ conf e x _ _ _. tt;
    null_connection_may = λ _. tt;
    found_row = λ r row _ _ _. tt;
    exists_row = λ my_value r row _ _ _. tt;
    pool_there = λ m _. inr tt;
    target_there = λ m _. inr tt;
    popped = λ m conn rest _ _. (tt, tt);
    bad_request_logged = λ k v (same_k, same_v) why l.
        rw (same_k, same_v) (replied keep_alive version before l _ (bad_request-IsReply why));
    server_error_logged = λ k v (same_k, same_v) why l.
        rw (same_k, same_v) (replied keep_alive version before l _ (server_error-IsReply why));
    rsponse_logged = λ msg k v (same_k, same_v) body_msg l.
        rw (same_k, same_v) (replied keep_alive version before l _ (rsponse-IsReply msg body_msg));
  }

  replying-Queries : (before : List Response) → Queries p (replying before)
  replying-Queries before = record {
    calls = record { keeps = no_condition; allows = replying-Allows before };
    query_keeps = λ conn sql e h. h;
  }

pub handler-RepliesOver :
    {p : Platform} (laws : PayloadLaws p) (rounds : ℕ) (route : Route) (header : Fields)
    (body : Bytes) (keep_alive : Bool) (version : ℕ) (s : Process p)
    → s.redis_open ≡ true
    → RepliesOver p keep_alive version s.sent
        (handler p rounds route header body keep_alive version s).1.sent
handler-RepliesOver laws rounds route header body keep_alive version s is_open =
    let ((_, _, _, log), _) =
      (handler-Keeps (replying-Queries laws keep_alive version s.sent) rounds (inl tt) route header
          body keep_alive version (refl, refl)).at
        s (tt, is_open, tt, ([], refl, tt)) in
    log
