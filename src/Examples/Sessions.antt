-- ===== src/Examples/Sessions.antt =====
-- Whole sessions at concrete inputs.
use mathlib.Core.List.{mem-cons_self}
use rocks.Base.{inr, ℕ, ◌≡◌, refl, [], ◌∷◌, ◌++◌, arith, true, none, some, ◌⊎◌}
use rocks.Base.Words.{Bytes, IsBytes}
use rocks.Addr.{ReqAddr, domain, resolve_local}
use rocks.Config.{OutgoingConfig, OutgoingType}
use rocks.Error.{Outcome, Result, io, from_description, not_socks5_protocol}
use rocks.Manager.{served, aborted, request_error}
use rocks.Manager.Codes.{Tells, for_connect, for_110}
use rocks.Manager.Handle.{handle}
use rocks.Manager.Session.{opening, handle_served, handle_refused}
use rocks.Manager.Every.{Concluded, handle_decides}
use rocks.Socks5.Every.{CutShort, Exchange}
use rocks.Outgoing.{linux, process_request_impl}
use rocks.Socks5.{success}
use rocks.Socks5.Auth.Handshake.{authenticate_wrong}
use rocks.Socks5.Reply.Encode.{addr_bytes, reply_bytes}
use rocks.Socks5.Request.{next_request}
use rocks.Socks5.Wire.{Runs, Runs-err}
use rocks.Examples.Memory.{
  server, plain, Memory, memory_tcp, memory_laws, client_with, client_with-OnWire, ascii, network,
  direct_config,
}

abbrev web : ReqAddr
web = domain (97 ∷ []) 80

abbrev mail : ReqAddr
mail = domain (97 ∷ []) 25

abbrev fine : Memory → ℕ → Outcome plain (Unit {0})
fine s o = Outcome.ok tt

abbrev rocks_config : OutgoingConfig
rocks_config = record { outgoing_type = OutgoingType.rocks_type; user = none; listen_addr = none }

web_served : process_request_impl network linux web ≡ Result.ok 5
unfolding process_request_impl resolve_local
web_served = refl

-- A client that asks for an IPv4 address and stops in the middle of it.
abbrev cut_off : Bytes
cut_off = 5 ∷ 1 ∷ 0 ∷ 5 ∷ 1 ∷ 0 ∷ 1 ∷ 10 ∷ 0 ∷ 0 ∷ 1 ∷ []

cut_off-IsBytes : IsBytes cut_off
cut_off-IsBytes = (
  omega arith,
  (
    omega arith,
    (
      omega arith,
      (
        omega arith,
        (
          omega arith,
          (
            omega arith,
            (omega arith, (omega arith, (omega arith, (omega arith, (omega arith, tt))))),
          ),
        ),
      ),
    ),
  ),
)

handle_decides_example :
    ((out' : Bytes) × CutShort [] cut_off out'
      × ((e : plain.IoError) × (s : Memory) × ((handle memory_laws ascii true network linux fine
              direct_config
              (client_with cut_off)).0
            ≡ Outcome.ok (request_error (io e)))
          × ((handle memory_laws ascii true network linux fine direct_config
                (client_with cut_off)).1.stream
              ≡ some s)
          × (memory_laws.sent s ≡ out')))
    ⊎ ((q : Outcome plain ReqAddr) × (left : Bytes) × (mid : Bytes) × Exchange [] plain ascii true
          cut_off q left mid
        × Concluded memory_laws ascii true network linux fine direct_config
            (client_with cut_off)
            q
            left
            mid)
handle_decides_example =
    handle_decides memory_laws ascii true network linux fine direct_config (client_with cut_off)
      cut_off [] cut_off-IsBytes (client_with-OnWire _)

handle_served_example :
    (s : Memory) × ((handle memory_laws ascii true network linux fine direct_config
        (client_with (opening (0 ∷ []) 0 web (1 ∷ [])))).0
      ≡ Outcome.ok served)
    × (memory_laws.pending s ≡ 1 ∷ [])
    × (memory_laws.sent s ≡ (5 ∷ 0 ∷ []) ++ reply_bytes success web)
handle_served_example =
    handle_served memory_laws ascii true network linux fine direct_config (0 ∷ []) 0 web (1 ∷ []) []
      5 (client_with (opening (0 ∷ []) 0 web (1 ∷ []))) refl (omega arith) mem-cons_self
      (omega arith, omega arith, refl) web_served (client_with-OnWire _)

-- The network has no connection for the port of mail, and fails with the number 110.
mail_told : Tells network mail 4
mail_told =
    for_connect (record { ip = server.ip; port = 25 }) 110
      (inr (97 ∷ [], server, [], refl, refl, refl)) refl (for_110 refl refl)

handle_refused_example :
    Runs memory_laws
      (handle memory_laws ascii true network linux fine direct_config)
      (opening (0 ∷ []) 0 mail [])
      []
      (Outcome.ok aborted)
      []
      ((5 ∷ 0 ∷ []) ++ 5 ∷ 4 ∷ 0 ∷ addr_bytes mail [])
handle_refused_example =
    handle_refused memory_laws ascii true network fine direct_config (0 ∷ []) 0 mail [] [] refl
      (omega arith) mem-cons_self (omega arith, omega arith, refl) mail_told

web_client_error :
    Runs memory_laws
      (next_request memory_tcp ascii true)
      (71 ∷ 69 ∷ 84 ∷ [])
      []
      (Outcome.err (from_description (not_socks5_protocol 71)))
      (84 ∷ [])
      []
unfolding next_request
web_client_error =
    Runs-err memory_laws _ (authenticate_wrong memory_laws 71 69 (84 ∷ []) [] (omega arith))
