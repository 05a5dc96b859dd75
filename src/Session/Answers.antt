-- ===== src/Session/Answers.antt =====
-- The session manager sends nothing.
use mlnserver_web.Prelude.{ℕ, ◌≡◌, List, Bytes}
use mlnserver_web.Platform.{Platform}
use mlnserver_web.Process.{Process}
use mlnserver_web.Http.Response.{Response}
use mlnserver_web.Http.Answers.{Quiet, continue-Quiet}
use mlnserver_web.Redis.Answers.{hget_all-Quiet}
use mlnserver_web.Session.{create_session, is_valid_session}

module _ (p : Platform) where
  pub create_session-Quiet :
      (mbuid : ℕ) (before : List Response) (s : Process p)
      → s.sent ≡ before
      → Quiet before (create_session p mbuid s)
  unfolding create_session
  create_session-Quiet mbuid before s h = record { same = h }

  pub is_valid_session-Quiet :
      (key : Bytes) (before : List Response) (s : Process p)
      → s.sent ≡ before
      → Quiet before (is_valid_session p key s)
  unfolding is_valid_session
  is_valid_session-Quiet key before s h =
      continue-Quiet (hget_all-Quiet p key before s h) λ found s' h'. record { same = h' }
