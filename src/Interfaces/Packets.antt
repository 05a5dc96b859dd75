-- ===== src/Interfaces/Packets.antt =====
-- mlnserver/myPacketHandler/handleAccount.h and mlnserver/myPacketHandler/handlePlayer.h, and what
-- fills them.
use mlnserver_web.Prelude.{ℕ}
use mlnserver_web.Outcome.{M}
use mlnserver_web.Platform.{Platform}
use mlnserver_web.Handlers.Macros.{Handler}
use mlnserver_web.Handlers.Account.{control_alive, control_alive_sleep, control_account_pass}
use mlnserver_web.Handlers.Player.{control_value_set, control_value_get}
use mlnserver_web.Startup.{
  Server, StartupSource, register, lobby_handler_account, lobby_handler_player,
}

-- The registration of the account handlers, and the handlers.
pub record HandleAccount (p : Platform) : Type 0 where
  pub regist_lobby_handler_account : M (Server p) (Unit {0})
  pub control_alive : Handler p
  pub control_alive_sleep : Handler p
  pub control_account_pass : Handler p

pub record HandlePlayer (p : Platform) : Type 0 where
  pub regist_lobby_handler_player : M (Server p) (Unit {0})
  pub control_value_set : Handler p
  pub control_value_get : Handler p

-- With a number of rounds for the loop of `purgeResult`.
module _ (p : Platform) (src : StartupSource p) (rounds : ℕ) where
  pub handle_account : HandleAccount p
  handle_account = record {
    regist_lobby_handler_account = register p src (lobby_handler_account p src rounds);
    control_alive = control_alive p;
    control_alive_sleep = control_alive_sleep p;
    control_account_pass = control_account_pass p rounds;
  }

  pub handle_player : HandlePlayer p
  handle_player = record {
    regist_lobby_handler_player = register p src (lobby_handler_player p src rounds);
    control_value_set = control_value_set p;
    control_value_get = control_value_get p rounds;
  }
