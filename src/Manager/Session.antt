-- ===== src/Manager/Session.antt =====
-- The handling of a SOCKS5 client by `handle_client`, with the methods of src/socks5/incoming.rs and
-- the direct connections of src/outgoing.rs put in.
use mathlib.Core.List.{Mem}
use rocks.Base.{subst, ℕ, ◌≤◌, ◌≡◌, ◌≢◌, [], ◌∷◌, ◌++◌, Bool, Option, length}
use rocks.Base.Words.{Bytes}
use rocks.Addr.{ReqAddr}
use rocks.Net.{Tcp, TcpLaws}
use rocks.Error.{Foreign, Outcome, Result}
use rocks.Config.{OutgoingConfig, OutgoingType}
use rocks.Outgoing.{linux, TargetOs, Network, process_request_impl}
use rocks.Socks5.{Connected, success, general_proxy_failure}
use rocks.Socks5.Reply.Encode.{addr_bytes, reply_bytes}
use rocks.Socks5.Session.{IsReadable, IsReadable-name_length, next_request-Runs}
use rocks.Socks5.Wire.{OnWire, Runs}
use rocks.Manager.{aborted}
use rocks.Manager.Codes.{Tells, fails-Tells}
use rocks.Manager.Handle.{handle, report_of, refuse, turn_away, serve}

-- What a client sends that offers no authentication and asks for `r`.
abbrev pub opening : Bytes → ℕ → ReqAddr → Bytes → Bytes
opening methods reserved r rest =
    5 ∷ length methods ∷ (methods ++ (5 ∷ 1 ∷ reserved ∷ addr_bytes r rest))

module _ {F : Foreign} {S O : Type 0} {tcp : Tcp F S} (laws : TcpLaws tcp)
    (utf8_error : Bytes → Option F.Utf8Error) (debug : Bool) (net : Network F O) (os : TargetOs)
    (copy : S → O → Outcome F (Unit {0})) where
  -- With any other outgoing type than the direct one, every readable request is answered by the code
  -- for a general failure, and nothing is connected to.
  pub handle_unsupported :
      (cfg : OutgoingConfig) (methods : Bytes) (reserved : ℕ) (r : ReqAddr) (rest out : Bytes)
      → cfg.outgoing_type ≢ OutgoingType.direct
      → length methods ≤ 255
      → Mem 0 methods
      → IsReadable utf8_error r
      → Runs laws
          (handle laws utf8_error debug net os copy cfg)
          (opening methods reserved r rest)
          out
          (Outcome.ok aborted)
          rest
          ((out ++ 5 ∷ 0 ∷ []) ++ reply_bytes general_proxy_failure r)
  handle_unsupported cfg methods reserved r rest out other h m readable =
      turn_away laws utf8_error debug net os copy cfg r (opening methods reserved r rest) out rest _
        other (IsReadable-name_length utf8_error r readable)
        (next_request-Runs laws utf8_error debug methods reserved r rest out h m readable)

  -- A readable request that the network serves is answered by the two messages of success, and the
  -- client's stream, with all that follows the request still to be read, is what is copied to and
  -- from the new connection; the report is that of the copying.
  pub handle_served :
      (cfg : OutgoingConfig) (methods : Bytes) (reserved : ℕ) (r : ReqAddr) (rest out : Bytes)
      (o : O) (c : Connected S)
      → cfg.outgoing_type ≡ OutgoingType.direct
      → length methods ≤ 255
      → Mem 0 methods
      → IsReadable utf8_error r
      → process_request_impl net os r ≡ Result.ok o
      → OnWire laws c (opening methods reserved r rest) out
      → (s : S) × ((handle laws utf8_error debug net os copy cfg c).0 ≡ report_of (copy s o))
        × (laws.pending s ≡ rest)
        × (laws.sent s ≡ (out ++ 5 ∷ 0 ∷ []) ++ reply_bytes success r)
  handle_served cfg methods reserved r rest out o c is_direct h m readable reached w =
      serve laws utf8_error debug net os copy cfg r (opening methods reserved r rest) out rest _ o c
        is_direct (IsReadable-name_length utf8_error r readable) reached
        (next_request-Runs laws utf8_error debug methods reserved r rest out h m readable) w

module _ {F : Foreign} {S O : Type 0} {tcp : Tcp F S} (laws : TcpLaws tcp)
    (utf8_error : Bytes → Option F.Utf8Error) (debug : Bool) (net : Network F O)
    (copy : S → O → Outcome F (Unit {0})) where
  -- On Linux, a readable request that there is no connection for is answered by exactly two messages:
  -- that no authentication is used, and a failure with the requested address, of which the code is 4
  -- where the lookup of the name fails or gives no address, 5 where the connection is refused, 3, 4 or
  -- 6 where the system's error number is 101, 110 or 113, and 1 for any other error.
  pub handle_refused :
      (cfg : OutgoingConfig) (methods : Bytes) (reserved : ℕ) (r : ReqAddr) (rest out : Bytes)
      {code : ℕ}
      → cfg.outgoing_type ≡ OutgoingType.direct
      → length methods ≤ 255
      → Mem 0 methods
      → IsReadable utf8_error r
      → Tells net r code
      → Runs laws
          (handle laws utf8_error debug net linux copy cfg)
          (opening methods reserved r rest)
          out
          (Outcome.ok aborted)
          rest
          ((out ++ 5 ∷ 0 ∷ []) ++ 5 ∷ code ∷ 0 ∷ addr_bytes r [])
  handle_refused cfg methods reserved r rest out {code} is_direct h m readable told =
      let (e, failed, same) = (fails-Tells net r code).1 told in
      subst
        (λ n.
          Runs laws (handle laws utf8_error debug net linux copy cfg)
            (opening methods reserved r rest) out (Outcome.ok aborted) rest
            ((out ++ 5 ∷ 0 ∷ []) ++ 5 ∷ n ∷ 0 ∷ addr_bytes r []))
        same
        (refuse laws utf8_error debug net linux copy cfg r (opening methods reserved r rest) out
          rest _ e is_direct (IsReadable-name_length utf8_error r readable) failed
          (next_request-Runs laws utf8_error debug methods reserved r rest out h m readable))
