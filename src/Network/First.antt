-- ===== src/Network/First.antt =====
-- Which address is taken.
use live_tests.Base.{
  suc, ◌≡◌, refl, sym, inl, inr, List, [], ◌∷◌, ◌++◌, Bool, true, false, not, ◌&&◌, ◌||◌, retain,
  length, ◌==◌, if◌then◌else◌, Bool-cases, arith,
}
use live_tests.Network.{
  IpAddr, or_else, NetworkInterface, localhost, scan_ips, scan_interfaces, data_network_ip,
}

abbrev pub head_or : IpAddr → List IpAddr → IpAddr
head_or default [] = default
head_or default (ip ∷ ips) = ip

-- All addresses of the interfaces that are up and no loopback, in order.
abbrev pub addresses : List NetworkInterface → List IpAddr
addresses [] = []
addresses (interface ∷ interfaces) =
    let rest = addresses interfaces in
    if interface.is_up && not interface.is_loopback then interface.ips ++ rest else rest

module _ (contains : IpAddr → Bool) where
  abbrev pub admissible : IpAddr → Bool
  admissible ip = ip.is_ipv4 && contains ip

  scan_ips-head_or :
      (ips rest : List IpAddr)
      → head_or localhost (retain admissible (ips ++ rest))
        ≡ or_else (scan_ips contains ips) (head_or localhost (retain admissible rest))
  unfolding scan_ips
  scan_ips-head_or [] rest = refl
  scan_ips-head_or (ip ∷ ips) rest = elim (Bool-cases (admissible ip)) [
    | inl taken ↦ rw taken refl
    | inr passed ↦ rw passed (scan_ips-head_or ips rest)
  ]

  step :
      (is_up is_loopback : Bool) (ips others : List IpAddr)
      → (if not is_up || is_loopback || length ips == 0
          then head_or localhost (retain admissible others)
          else or_else (scan_ips contains ips) (head_or localhost (retain admissible others)))
        ≡ head_or localhost
            (retain admissible (if is_up && not is_loopback then ips ++ others else others))
  step false is_loopback ips others = refl
  step true true ips others = refl
  step true false [] others = ground arith
  step true false (ip ∷ ips) others =
      let filled : (suc (length ips) == 0) ≡ false = ground arith in
      rw filled (sym (scan_ips-head_or (ip ∷ ips) others))

  scan_interfaces-head_or :
      (interfaces : List NetworkInterface)
      → scan_interfaces contains interfaces
        ≡ head_or localhost (retain admissible (addresses interfaces))
  unfolding scan_interfaces
  scan_interfaces-head_or [] = refl
  scan_interfaces-head_or (interface ∷ interfaces) =
      let rest = scan_interfaces-head_or interfaces in
      rw rest (step interface.is_up interface.is_loopback interface.ips (addresses interfaces))

  -- With the sidecar the result is the first IPv4 address in the subnet that an interface has which
  -- is up and no loopback; without one, or without the sidecar, it is the local host.
  pub data_network_ip_lem :
      (sidecar : Bool) (all_interfaces : List NetworkInterface)
      → data_network_ip contains sidecar all_interfaces
        ≡ head_or localhost (retain admissible (if sidecar then addresses all_interfaces else []))
  unfolding data_network_ip
  data_network_ip_lem true all_interfaces = scan_interfaces-head_or all_interfaces
  data_network_ip_lem false all_interfaces = refl
