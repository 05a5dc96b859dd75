-- ===== src/Redis/Answers.antt =====
-- The Redis connector and the session manager send nothing.
use mlnserver_web.Prelude.{ℕ, ◌≡◌, List, Bytes, arith}
use mlnserver_web.Platform.{Platform, Fields}
use mlnserver_web.Process.{Process}
use mlnserver_web.Http.Response.{Response}
use mlnserver_web.Http.Answers.{Quiet}
use mlnserver_web.Redis.{hset_fields, hget_all}

module _ (p : Platform) where
  pub hset_fields-Quiet :
      (key : Bytes) (field_values : Fields) (expire_sec : ℕ) (before : List Response)
      (s : Process p)
      → s.sent ≡ before
      → Quiet before (hset_fields p key field_values expire_sec s)
  unfolding hset_fields
  hset_fields-Quiet key field_values expire_sec before s h = ground arith

  pub hget_all-Quiet :
      (key : Bytes) (before : List Response) (s : Process p)
      → s.sent ≡ before
      → Quiet before (hget_all p key s)
  unfolding hget_all
  hget_all-Quiet key before s h = ground arith
