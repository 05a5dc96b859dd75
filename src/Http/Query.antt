-- ===== src/Http/Query.antt =====
-- The wrappers of boost::mysql in mlnserver/lobbyServerUtils.h. An error code other than 0 is thrown
-- as a `system_error`; the diagnostics stand in the thread-local `additional_info`.
pub mod Answers
pub mod Keeps
pub mod Purge
pub mod Returned
pub mod Failed
pub mod Checks
pub mod Reads
use mlnserver_web.Prelude.{
  ℕ, zero, suc, Bool, true, false, Option, none, some, List, [], Bytes, ◌==◌, if◌then◌else◌,
}
use mlnserver_web.Outcome.{
  Exn, Fault, Outcome, ok, M, pure, throw, stop, ◌>>=◌, ◌>>◌, or_stop, continue,
}
use mlnserver_web.Platform.{Platform, Reply, ReadOne, ErrorCode, ErrorInfo}
use mlnserver_web.Process.{Process, ConnPtr, call}

module _ (p : Platform) where
  unfoldable pub check_error : ErrorCode → ErrorInfo → M (Process p) (Unit {0})
  check_error err info = if err == 0 then pure tt else throw (Exn.system_error err info)

  -- The handler goes on after a wait.
  unfoldable pub resume : M (Process p) (Unit {0})
  resume s =
      let held = p.resumed s.ext (s.param_string, s.additional_info) in
      pure tt (record s { param_string = held.0; additional_info = held.1 })

  -- `check_error(sender.ec_, additional_info)`: the diagnostics are read where the handler goes on.
  unfoldable pub check_noted : ErrorCode → M (Process p) (Unit {0})
  unfolding check_error
  check_noted err s = check_error err s.additional_info s

  -- The reply's diagnostics replace those of the call before.
  note_info : {A : Type 0} → Reply A × p.State → M (Process p) (Reply A)
  note_info (reply, e) s = pure reply (record s { ext = e; additional_info = reply.info })

  keep_info : {A : Type 0} → Reply A × p.State → M (Process p) (Reply A)
  keep_info (reply, e) s = pure reply (record s { ext = e })

  async : {A : Type 0} → (p.State → Reply A × p.State) → M (Process p) A
  unfolding note_info check_noted resume
  async op s =
      (note_info (op s.ext) >>= λ reply. (resume >> check_noted reply.ec >> pure reply.result)) s

  unfoldable pub send_query : ConnPtr p → Bytes → M (Process p) p.ResultSet
  unfolding async
  send_query conn_obj sql = do
    conn ← or_stop conn_obj Fault.null_connection
    async (p.query conn sql)

  unfoldable pub read_one : p.ResultSet → M (Process p) (ReadOne p.ResultSet p.Field)
  unfolding async
  read_one result = async (p.read_one result)

  -- `readAll` hands no diagnostics to the call: what `check_error` reports are what another call
  -- left.
  unfoldable pub read_all : p.ResultSet → M (Process p) (List (List p.Field))
  unfolding check_noted keep_info resume
  read_all result s =
      (keep_info (p.read_all result s.ext) >>= λ reply.
      (resume >> check_noted reply.ec >> pure reply.result))
        s

  -- `while (false == result.complete()) if (false == readOne(…)) break;`, for a number of rounds.
  unfoldable pub purge_result : ℕ → p.ResultSet → M (Process p) p.ResultSet
  unfolding read_one
  purge_result zero result = if p.complete result then pure result else stop Fault.out_of_fuel
  purge_result (suc rounds) result =
      if p.complete result
      then pure result
      else (read_one result >>= λ r. elim r.found [
        | true ↦ purge_result rounds r.after
        | false ↦ pure r.after
      ])

  -- A count that is not the expected one is logged and nothing else: the Boolean says that it was.
  unfoldable pub query_insert_and_check :
      ℕ → p.ResultSet → ConnPtr p → Bytes → ℕ → M (Process p) (Bool × p.ResultSet)
  unfolding purge_result send_query
  query_insert_and_check rounds result conn_obj sql attached_cnt = do
    _ ← purge_result rounds result
    inserted ← send_query conn_obj sql
    pure (if attached_cnt == p.affected_rows inserted then false else true, inserted)
