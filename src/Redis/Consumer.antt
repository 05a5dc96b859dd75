-- ===== src/Redis/Consumer.antt =====
-- `ConsumerThreadTask` of mlnserver/redisConnector.cpp: subscribe, then consume messages for ever.
pub mod Forever
use mlnserver_web.Prelude.{ℕ, zero, suc, List, [], ◌∷◌, Bytes}
use mlnserver_web.Outcome.{Exn, Fault, M, pure, throw, stop, catching, ◌>>◌}
use mlnserver_web.Platform.{Platform, ConnectionOptions}
use mlnserver_web.Process.{Process, call}

-- `catch (const TimeoutError&)` and then `catch (const Error&)`, its base class: both go on.
abbrev pub on_consume_error : {S : Type 0} → Exn → M S (Unit {0})
on_consume_error (Exn.timeout_error msg) = pure tt
on_consume_error (Exn.redis_error msg) = pure tt
on_consume_error e = throw e

module _ (p : Platform) where
  -- The outer `catch (const Error&)` ends the process by `std::exit`, after a pause.
  on_setup_error : Exn → M (Process p) (Unit {0})
  on_setup_error (Exn.timeout_error msg) = call (p.sleep_for 3000) >> stop Fault.exited
  on_setup_error (Exn.redis_error msg) = call (p.sleep_for 3000) >> stop Fault.exited
  on_setup_error e = throw e

  unfoldable pub subscribe_all : List Bytes → M (Process p) (Unit {0})
  subscribe_all [] = pure tt
  subscribe_all (channel ∷ rest) = call (p.subscribe channel) >> subscribe_all rest

  -- The inner `while (true)`, for a number of rounds.
  unfoldable pub consume_loop : ℕ → M (Process p) (Unit {0})
  consume_loop zero = stop Fault.out_of_fuel
  consume_loop (suc rounds) = catching (call p.consume) on_consume_error >> consume_loop rounds

  -- The body of the outer `try`.
  pub consume_messages : ℕ → ConnectionOptions → List Bytes → M (Process p) (Unit {0})
  unfolding subscribe_all consume_loop
  consume_messages rounds options sub_groups = do
    call (p.open_subscriber (record options { socket_timeout = 0 }))
    subscribe_all sub_groups
    consume_loop rounds

  -- One round of the outer loop: no round is followed by another, since the inner loop has no end.
  unfoldable pub consumer_thread_task :
      ℕ → ConnectionOptions → List Bytes → M (Process p) (Unit {0})
  unfolding consume_messages on_setup_error
  consumer_thread_task rounds options sub_groups =
      catching (consume_messages rounds options sub_groups) on_setup_error
