-- ===== src/Examples/Addresses.antt =====
-- Addresses, reasons and copying at concrete inputs.
use rocks.Base.{ℕ, ◌≡◌, ◌↔◌, refl, [], ◌∷◌, some}
use rocks.Base.Words.{Bytes}
use rocks.Addr.{SocketAddr, IpAddr, domain, v4, port}
use rocks.Addr.Resolve.{Resolves}
use rocks.Config.{CfgAddr, into_addr}
use rocks.Config.Address.{Stands, into_addr-Stands}
use rocks.Connection.{Socket, Copying, bicopy}
use rocks.Connection.Bicopy.{HasAddrs, bicopy_iff}
use rocks.Error.{Outcome, Result, io, timed_out, host_unreachable, network_unreachable}
use rocks.Outgoing.{linux, connect_error, process_request_impl}
use rocks.Outgoing.Reasons.{connect_error_linux, process_request_impl_iff}
use rocks.Examples.Memory.{plain, server, here, network}

abbrev found : SocketAddr
found = record { ip = v4 10 0 0 7; port = 80 }

process_request_impl_iff_example :
    (process_request_impl network linux (domain (97 ∷ []) 80) ≡ Result.ok 5) ↔ (
      (a : SocketAddr) × (a.port ≡ port (domain (97 ∷ []) 80))
      × Resolves network.lookup (domain (97 ∷ []) 80) a
      × (network.connect a ≡ Result.ok 5))
process_request_impl_iff_example = process_request_impl_iff network linux (domain (97 ∷ []) 80) 5

connect_error_linux_example :
    ((connect_error network linux 113 ≡ timed_out (io 113)) ↔ (◌≡◌ {A = ℕ} 113 113))
    × ((connect_error network linux 113 ≡ host_unreachable (io 113)) ↔ (◌≡◌ {A = ℕ} 113 110))
    × ((connect_error network linux 113 ≡ network_unreachable (io 113)) ↔ (◌≡◌ {A = ℕ} 113 101))
connect_error_linux_example = connect_error_linux network 113 113 refl refl

abbrev parse_ip : Bytes → Result ℕ IpAddr
parse_ip text = Result.ok (v4 0 0 0 0)

abbrev listen : CfgAddr
listen = record { ip = some (48 ∷ []); domain = some (97 ∷ []); port = 8443 }

into_addr-Stands_example :
    (into_addr {F = plain} parse_ip network.lookup listen
      ≡ Result.ok (record { ip = v4 0 0 0 0; port = 8443 }))
    ↔ Stands parse_ip network.lookup listen (record { ip = v4 0 0 0 0; port = 8443 })
into_addr-Stands_example =
    into_addr-Stands {F = plain} parse_ip network.lookup listen
      (record { ip = v4 0 0 0 0; port = 8443 })

abbrev socket : Socket plain ℕ
socket = record { local_addr = λ c. Result.ok here; peer_addr = λ c. Result.ok server }

abbrev one_way : Copying plain ℕ ℕ
one_way = record { i2o = λ i o. Result.err 104; o2i = λ i o. Result.err 32 }

abbrev both_ways : Copying plain ℕ ℕ
both_ways = record { i2o = λ i o. Result.ok 10; o2i = λ i o. Result.ok 2000 }

bicopy_iff_example : (bicopy socket socket both_ways 1 2 ≡ Outcome.ok tt) ↔ (
    HasAddrs socket 1
    × HasAddrs socket 2
    × ((n : ℕ) × (both_ways.i2o 1 2 ≡ Result.ok n))
    × ((m : ℕ) × (both_ways.o2i 1 2 ≡ Result.ok m)))
bicopy_iff_example = bicopy_iff socket socket both_ways 1 2
