-- ===== src/Network/Tests.antt =====
-- The address on a machine with a loopback interface and one on the data network.
use live_tests.Base.{◌≡◌, List, [], ◌∷◌, Bool, true, false, ltb}
use live_tests.Network.{IpAddr, NetworkInterface, localhost, data_network_ip}
use live_tests.Network.First.{data_network_ip_lem}

-- A subnet of the addresses from 100 on.
abbrev in_subnet : IpAddr → Bool
in_subnet ip = ltb 99 ip.address

abbrev data_ip : IpAddr
data_ip = record { is_ipv4 = true; address = 120 }

abbrev interfaces : List NetworkInterface
interfaces =
    record { is_up = true; is_loopback = true; ips = localhost ∷ [] }
    ∷ record {
      is_up = true;
      is_loopback = false;
      ips =
          record { is_ipv4 = false; address = 110 }
          ∷ record { is_ipv4 = true; address = 20 }
          ∷ data_ip
          ∷ [];
    }
    ∷ []

data_network_ip_lem_example : data_network_ip in_subnet true interfaces ≡ data_ip
data_network_ip_lem_example = data_network_ip_lem in_subnet true interfaces
