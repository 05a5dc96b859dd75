-- ===== src/PacketChecker.antt =====
-- mlnserver/packetChecker: a library whose checker is a stub.
use mlnserver_web.Prelude.{ℕ, Bool, true, false, Option, none, some, Bytes}
use mlnserver_web.Outcome.{Fault, Outcome, ok, fault, M, pure}

-- How the exported functions are declared: PACKETCHECKER_API, with PACKETCHECKER_EXPORTS or without.
pub data Linkage : Type 0 where
  dllexport dllimport : Linkage

pub packetchecker_api : Bool → Linkage
packetchecker_api true = dllexport
packetchecker_api false = dllimport

-- The callback for the log: an address, which is never called.
abbrev pub LogCallback : Type 0
LogCallback = ℕ

-- The interface IPacketChecker, with its one method.
pub record PacketCheckerBase : Type 0 where
  pub get_hash : ℕ → ℕ

-- The class PacketChecker: the address of the callback for the log.
pub record PacketChecker : Type 0 where
  pub m_lcb : LogCallback

-- `PacketChecker::GetHash`
pub get_hash : PacketChecker → ℕ → ℕ
get_hash checker seq = 1234

pub packet_checker : LogCallback → Bytes → ℕ → PacketChecker
packet_checker lb param_str param_num = record { m_lcb = lb }

-- `~PacketChecker` has an empty body.
pub destroy_packet_checker : M PacketChecker (Unit {0})
destroy_packet_checker = pure tt

-- The class: its constructor, its destructor, and its method.
pub record PacketCheckerClass : Type 0 where
  pub make : LogCallback → Bytes → ℕ → PacketChecker
  pub destroy : M PacketChecker (Unit {0})
  pub get_hash : PacketChecker → ℕ → ℕ

pub packet_checker_class : PacketCheckerClass
packet_checker_class = record {
  make = packet_checker;
  destroy = destroy_packet_checker;
  get_hash = get_hash;
}

-- A checker seen by its interface.
pub as_base : PacketChecker → PacketCheckerBase
unfolding get_hash
as_base checker = record { get_hash = get_hash checker }

-- The functions that the library exports; a null pointer has no method.
pub packet_checker_create : LogCallback → Bytes → ℕ → Option PacketCheckerBase
unfolding packet_checker as_base
packet_checker_create lb param_str param_num =
    some (as_base (packet_checker lb param_str param_num))

pub packet_checker_get_hash : Option PacketCheckerBase → ℕ → Outcome ℕ
packet_checker_get_hash none seq = fault Fault.null_checker
packet_checker_get_hash (some checker) seq = ok (checker.get_hash seq)

-- The library: the types and the functions that it exports.
pub record PacketCheckerLibrary : Type 1 where
  pub LogCallback : Type 0
  pub IPacketChecker : Type 0
  pub packet_checker_create : LogCallback → Bytes → ℕ → Option IPacketChecker
  pub packet_checker_get_hash : Option IPacketChecker → ℕ → Outcome ℕ

pub packet_checker_library : PacketCheckerLibrary
packet_checker_library = record {
  LogCallback = LogCallback;
  IPacketChecker = PacketCheckerBase;
  packet_checker_create = packet_checker_create;
  packet_checker_get_hash = packet_checker_get_hash;
}

-- `DllMain`, for any reason it is called with.
pub dll_main : ℕ → Bool
dll_main ul_reason_for_call = true
