-- ===== src/Examples/Requests.antt =====
-- Requests at concrete inputs, those that are refused and those that go wrong.
use rocks.Base.{ℕ, ◌≡◌, ◌↔◌, ◌⊎◌, [], ◌∷◌, arith, true, false}
use rocks.Base.Words.{Bytes, IsBytes}
use rocks.Addr.{ReqAddr, ip, v4, v6, parse_address_v4}
use rocks.Addr.Parse.{parse_address_v4-port_iff}
use rocks.Error.{Outcome}
use rocks.Socks5.Wire.{Runs}
use rocks.Socks5.Request.{get_request, next_request}
use rocks.Socks5.Request.Domain.{get_request_long_domain}
use rocks.Socks5.Wire.Breaks.{Breaks}
use rocks.Socks5.Request.Decides.{Cut, Verdict}
use rocks.Socks5.Request.Every.{get_request_decides}
use rocks.Socks5.Every.{CutShort, Exchange, next_request_decides}
use rocks.Examples.Memory.{plain, memory_tcp, memory_laws, ascii}

abbrev site : ReqAddr
site = ip (record { ip = v6 0x2001 0xdb8 0 0 0 0 0 1; port = 443 })

parse_address_v4-port_iff_example :
    (parse_address_v4 {F = plain} (10 ∷ 0 ∷ 0 ∷ 7 ∷ 1 ∷ 187 ∷ [])
      ≡ Outcome.ok (ip (record { ip = v4 10 0 0 7; port = 443 })))
    ↔ ((◌≡◌ {A = ℕ} 7 1) × (◌≡◌ {A = ℕ} 1 187))
parse_address_v4-port_iff_example =
    parse_address_v4-port_iff {F = plain} 10 0 0 7 1 187 (omega arith) (omega arith) (omega arith)

get_request_long_domain_example :
    Runs memory_laws
      (get_request memory_tcp ascii false)
      (5 ∷ 1 ∷ 0 ∷ 3 ∷ 254 ∷ 97 ∷ [])
      []
      Outcome.panic
      (97 ∷ [])
      []
get_request_long_domain_example =
    get_request_long_domain memory_laws ascii false 0 254 (97 ∷ []) [] (omega arith)

abbrev of_no_type : Bytes
of_no_type = 5 ∷ 1 ∷ 0 ∷ 2 ∷ 10 ∷ []

get_request_decides_example :
    (Cut of_no_type × Breaks memory_laws (get_request memory_tcp ascii true) of_no_type [] [])
    ⊎ ((r : Outcome plain ReqAddr) × (left : Bytes) × (out' : Bytes) × Verdict plain ascii true []
          of_no_type r left out'
        × Runs memory_laws (get_request memory_tcp ascii true) of_no_type [] r left out')
get_request_decides_example =
    get_request_decides plain ascii true [] memory_laws of_no_type
      (omega arith, (omega arith, (omega arith, (omega arith, (omega arith, tt)))))

-- A greeting with two methods, a request for an IPv4 address, and a byte more.
abbrev exchange : Bytes
exchange = 5 ∷ 2 ∷ 2 ∷ 0 ∷ 5 ∷ 1 ∷ 0 ∷ 1 ∷ 10 ∷ 0 ∷ 0 ∷ 1 ∷ 0 ∷ 80 ∷ 7 ∷ []

exchange-IsBytes : IsBytes exchange
exchange-IsBytes = (
  omega arith,
  (
    omega arith,
    (
      omega arith,
      (
        omega arith,
        (
          omega arith,
          (
            omega arith,
            (
              omega arith,
              (
                omega arith,
                (
                  omega arith,
                  (
                    omega arith,
                    (omega arith, (omega arith, (omega arith, (omega arith, (omega arith, tt))))),
                  ),
                ),
              ),
            ),
          ),
        ),
      ),
    ),
  ),
)

next_request_decides_example :
    ((out' : Bytes) × CutShort [] exchange out'
      × Breaks memory_laws (next_request memory_tcp ascii true) exchange [] out')
    ⊎ ((r : Outcome plain ReqAddr) × (left : Bytes) × (out' : Bytes) × Exchange [] plain ascii true
          exchange r left out'
        × Runs memory_laws (next_request memory_tcp ascii true) exchange [] r left out')
next_request_decides_example =
    next_request_decides [] plain ascii true memory_laws exchange exchange-IsBytes
