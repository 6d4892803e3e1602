-- ===== src/Network.antt =====
-- The address of a container on the data network (`data_network_ip` of
-- plans/streaming_test/src/utils.rs). The interfaces of the machine are an argument.
pub mod First
mod Tests
use live_tests.Base.{
  ℕ, List, [], ◌∷◌, Bool, true, false, not, ◌&&◌, ◌||◌, Option, none, some, length, ◌==◌,
  if◌then◌else◌,
}

pub record IpAddr : Type 0 where
  pub is_ipv4 : Bool
  pub address : ℕ

pub record NetworkInterface : Type 0 where
  pub is_up : Bool
  pub is_loopback : Bool
  pub ips : List IpAddr

-- 127.0.0.1
abbrev pub localhost : IpAddr
localhost = record { is_ipv4 = true; address = 2130706433 }

abbrev pub or_else : Option IpAddr → IpAddr → IpAddr
or_else none default = default
or_else (some ip) default = ip

-- `contains` tells which addresses are in the subnet.
module _ (contains : IpAddr → Bool) where
  -- The loop over the addresses of an interface.
  unfoldable pub scan_ips : List IpAddr → Option IpAddr
  scan_ips [] = none
  scan_ips (ip ∷ ips) =
      let rest = scan_ips ips in if ip.is_ipv4 && contains ip then some ip else rest

  -- The loop over the interfaces.
  unfoldable pub scan_interfaces : List NetworkInterface → IpAddr
  unfolding scan_ips
  scan_interfaces [] = localhost
  scan_interfaces (interface ∷ interfaces) =
      let rest = scan_interfaces interfaces in
      let returned = or_else (scan_ips interface.ips) rest in
      if not interface.is_up || interface.is_loopback || length interface.ips == 0
      then rest
      else returned

  unfoldable pub data_network_ip : Bool → List NetworkInterface → IpAddr
  unfolding scan_interfaces
  data_network_ip sidecar all_interfaces =
      let found = scan_interfaces all_interfaces in if not sidecar then localhost else found
