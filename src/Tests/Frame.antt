-- ===== src/Tests/Frame.antt =====
-- What the calls of the demo platform change in Redis.
use mlnserver_web.Prelude.{
  refl, ◌∙◌, Bool-cases, inl, inr, Option-cases, [], ◌∷◌, Bytes, codes, bytes_eq, bytes_eq→eq,
}
use mlnserver_web.Platform.{Fields}
use mlnserver_web.Number.{to_string}
use mlnserver_web.Redis.Containers.{find, find-append}
use mlnserver_web.Session.{gen_session_key}
use mlnserver_web.Session.Changes.{
  Hashes, Puts, Puts-session, OnlyStores, OnlyStores-ChangeLaws, StoresOrExpires,
  StoresOrExpires-ChangeLaws, ChangeLaws,
}
use mlnserver_web.Session.Frame.{HashFrame}
use mlnserver_web.Tests.Demo.{store, demo, demo_redis_laws}

store-Puts : (key : Bytes) (fields : Fields) (e : Hashes) → Puts key fields e (store key fields e)
store-Puts key fields e other field = elim (Bool-cases (bytes_eq key other)) [
  | inr apart ↦ inl (rw apart refl)
  | inl same ↦ rw same (elim (Option-cases (find field fields)) [
    | inl missing ↦ inl (find-append field fields (e other) ∙ rw missing refl)
    | inr (v, there) ↦
        inr (bytes_eq→eq key other same, find-append field fields (e other) ∙ rw there refl)
  ])
]

demo_frame :
    {R : Hashes → Hashes → Type 0} (change : ChangeLaws R) → HashFrame demo demo_redis_laws.hash R
unfolding demo_redis_laws
demo_frame change = record {
  connect_frame = λ _ e. change.nothing e;
  query_frame = λ _ _ e.
      change.stored e _
        (Puts-session 5 e _ (store-Puts (gen_session_key 5) ((codes "mbuid", to_string 5) ∷ []) e));
  read_one_frame = λ _ e. change.nothing e;
  generate_uuid_frame = λ e. change.nothing e;
  hgetall_frame = λ _ e. change.nothing e;
  expire_frame = λ _ _ e. change.nothing e;
  send_frame = λ _ e. change.nothing e;
  send_ine_frame = λ _ e. change.nothing e;
  hmset_frame = λ key fields e.
      (e, store key fields e, change.nothing e, store-Puts key fields e, change.nothing _);
}

pub demo_storing : HashFrame demo demo_redis_laws.hash OnlyStores
demo_storing = demo_frame OnlyStores-ChangeLaws

pub demo_expiring : HashFrame demo demo_redis_laws.hash StoresOrExpires
demo_expiring = demo_frame StoresOrExpires-ChangeLaws
