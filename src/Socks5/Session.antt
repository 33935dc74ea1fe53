-- ===== src/Socks5/Session.antt =====
-- The methods of `IncomingClient` for a SOCKS5 client (src/socks5/incoming.rs): the whole exchange up
-- to the request, the answer to a failed request, and the hand-over of the stream.
use rocks.Base.{ℕ, ◌^◌, ◌≤◌, ◌<◌, ◌≡◌, refl, ap, [], ◌∷◌, ◌++◌, arith, Bool, Option, none, length}
use mathlib.Core.List.{Mem}
use rocks.Base.Words.{Bytes}
use rocks.Addr.{ReqAddr, IpAddr, ip, domain, v4, v6}
use rocks.Net.{Tcp, TcpLaws}
use rocks.Error.{Foreign, OutgoingError, Outcome, >>=-ok, not_connected}
use rocks.Socks5.{Connected, success, get_reason, read_from, write_to, read_exact, write_all}
use rocks.Buffer.{or_panic}
use rocks.Socks5.Wire.{OnWire, Runs, Runs-bind}
use rocks.Socks5.Auth.Handshake.{authenticate_accepts}
use rocks.Socks5.Reply.{send_final_response}
use rocks.Socks5.Reply.Encode.{addr_bytes, reply_bytes, name_length, send_final_response-Runs}
use rocks.Socks5.Reply.Decode.{IsAddr}
use rocks.Socks5.Request.{get_request, next_request, abort, take_stream, ready_for_connect}
use rocks.Socks5.Request.Ip.{get_request_v6}
use rocks.Socks5.Request.Domain.{get_request_domain}

-- The requests that are read back as they were sent: those for an IPv6 address, and those for a
-- domain name of at most 253 bytes of UTF-8.
abbrev pub IsReadable : {E : Type 0} → (Bytes → Option E) → ReqAddr → Type 0
IsReadable utf8_error (ip a) = elim a.ip [ v4 _ _ _ _ ↦ ⊥ | v6 _ _ _ _ _ _ _ _ ↦ IsAddr (ip a) ]
IsReadable utf8_error (domain name p) =
    (length name ≤ 253) × (p < 2 ^ 16) × (utf8_error name ≡ none)

pub IsReadable-name_length :
    {E : Type 0} (utf8_error : Bytes → Option E) (r : ReqAddr)
    → IsReadable utf8_error r
    → name_length r ≤ 254
IsReadable-name_length utf8_error (ip a) h = omega arith
IsReadable-name_length utf8_error (domain name p) h = omega (arith, h.0)

module _ {F : Foreign} {S : Type 0} {tcp : Tcp F S} (laws : TcpLaws tcp)
    (utf8_error : Bytes → Option F.Utf8Error) (debug : Bool) where
  get_request-Runs :
      (reserved : ℕ) (r : ReqAddr) (rest out : Bytes)
      → IsReadable utf8_error r
      → Runs laws
          (get_request tcp utf8_error debug)
          (5 ∷ 1 ∷ reserved ∷ addr_bytes r rest)
          out
          (Outcome.ok r)
          rest
          out
  get_request-Runs reserved (domain name p) rest out h =
      get_request_domain laws utf8_error debug reserved p name rest out h.0 h.1 h.2
  get_request-Runs reserved (ip a) rest out h = by_ip a.ip a.port h
    where
      by_ip :
          (i : IpAddr) (p : ℕ)
          → IsReadable utf8_error (ip (record { ip = i; port = p }))
          → Runs laws
              (get_request tcp utf8_error debug)
              (5 ∷ 1 ∷ reserved ∷ addr_bytes (ip (record { ip = i; port = p })) rest)
              out
              (Outcome.ok (ip (record { ip = i; port = p })))
              rest
              out
      by_ip (v4 x y z w) p h = absurd h
      by_ip (v6 x y z w s t u v) p h =
          get_request_v6 laws utf8_error debug reserved x y z w s t u v p rest out h

  -- A client that offers no authentication and asks for an IPv6 address or for a domain name is read
  -- to the end of its request and accepted, and what it asks for is what the proxy will connect to.
  pub next_request-Runs :
      (methods : Bytes) (reserved : ℕ) (r : ReqAddr) (rest out : Bytes)
      → length methods ≤ 255
      → Mem 0 methods
      → IsReadable utf8_error r
      → Runs laws
          (next_request tcp utf8_error debug)
          (5 ∷ length methods ∷ (methods ++ (5 ∷ 1 ∷ reserved ∷ addr_bytes r rest)))
          out
          (Outcome.ok r)
          rest
          (out ++ 5 ∷ 0 ∷ [])
  unfolding next_request
  next_request-Runs methods reserved r rest out h m readable =
      Runs-bind laws _
        (authenticate_accepts laws methods (5 ∷ 1 ∷ reserved ∷ addr_bytes r rest) out h m)
        (get_request-Runs reserved r rest _ readable)

module _ {F : Foreign} {S : Type 0} {tcp : Tcp F S} (laws : TcpLaws tcp) where
  -- A request that cannot be served is answered by one reply, with the code for the reason.
  pub abort-Runs :
      (e : OutgoingError F) (r : ReqAddr) (inp out : Bytes)
      → name_length r ≤ 254
      → Runs laws (abort tcp e r) inp out (Outcome.ok tt) inp (out ++ reply_bytes (get_reason e) r)
  unfolding abort
  abort-Runs e r inp out h = send_final_response-Runs laws (get_reason e) r inp out h

  -- The client is told of the success, and its stream is handed over with nothing else read or
  -- written; the client keeps no stream.
  pub ready_for_connect_lem :
      (r : ReqAddr) (inp out : Bytes) (c : Connected S)
      → name_length r ≤ 254
      → OnWire laws c inp out
      → (s : S) × ((ready_for_connect tcp r c).0 ≡ Outcome.ok s)
        × (laws.pending s ≡ inp)
        × (laws.sent s ≡ out ++ reply_bytes success r)
        × ((ready_for_connect tcp r c).1.stream ≡ none)
  unfolding ready_for_connect
  ready_for_connect_lem r inp out c h w =
      let told = (send_final_response-Runs laws success r inp out h).run c w in
      rw (>>=-ok (send_final_response tcp success r) (λ _. take_stream tcp) c told.0)
        (told.1.tcp_stream, ap or_panic told.1.connected, told.1.pending_is, told.1.sent_is, refl)

  -- Without its stream a client can neither be read from nor be answered.
  pub not_connected_lem :
      (c : Connected S) (n : ℕ) (bs : Bytes)
      → c.stream ≡ none
      → ((read_exact tcp n c).0 ≡ Outcome.err not_connected)
        × ((write_all tcp bs c).0 ≡ Outcome.err not_connected)
  unfolding read_exact write_all
  not_connected_lem c n bs e =
      (ap (λ o. (read_from tcp o n c).0) e, ap (λ o. (write_to tcp o bs c).0) e)
