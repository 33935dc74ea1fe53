-- ===== src/Socks5/Request.antt =====
-- `get_request` of src/socks5/incoming.rs, and the methods of `IncomingClient` for a SOCKS5 client.
pub mod Ip
pub mod Domain
pub mod Refusals
pub mod Decides
pub mod Every
pub mod Parts
use rocks.Base.{
  ℕ, ◌+◌, List, [], ◌∷◌, Bool, true, false, not, Option, none, some, replicate, ◌==◌, if◌then◌else◌,
}
use rocks.Base.Words.{Bytes}
use rocks.Addr.{ReqAddr, default, parse_address_v4, parse_address_v6, parse_domain}
use rocks.Buffer.{or_panic, at, slice}
use rocks.Net.{Tcp}
use rocks.Error.{
  Foreign, Error, OutgoingError, Outcome, Result, Action, attempt, when, fail, ◌>>=◌, ◌>>◌, lift,
  from_description, not_socks5_protocol, cmd_not_connect,
}
use rocks.Socks5.{
  Connected, Socks5AddrType, Socks5Error, read_into, write_all, try_from, socks5_protocol,
  socks5_cmd_connect, command_not_supported, address_type_not_supported, success, get_reason,
}
use rocks.Socks5.Auth.{authenticate_client}
use rocks.Socks5.Reply.{send_final_response}

-- What the logger does with `debug!("domain: {}", r.as_ref().unwrap())`: the argument is evaluated
-- only if the level is on.
abbrev pub debug_domain :
    {F : Foreign} {A : Type 0} → Bool → Result (Error F) A → Outcome F (Unit {0})
debug_domain true (Result.ok a) = Outcome.ok tt
debug_domain true (Result.err e) = Outcome.panic
debug_domain false r = Outcome.ok tt

module _ {F : Foreign} {S : Type 0} (tcp : Tcp F S) where
  -- `if let Err(_) = addr { .. }` and the final `addr`.
  pub finish_request : Result (Error F) ReqAddr → Action F (Connected S) ReqAddr
  finish_request (Result.ok addr) = lift (Outcome.ok addr)
  finish_request (Result.err e) = do
    send_final_response tcp address_type_not_supported default
    lift (Outcome.err e)

module _ {F : Foreign} {S : Type 0} (tcp : Tcp F S) (utf8_error : Bytes → Option F.Utf8Error)
    (debug : Bool) where
  -- The `match` on the address type: the `Result` that it gives, with the reply that the last branch
  -- sends.
  pub read_addr :
      Result (Error F) Socks5AddrType
      → ℕ
      → Bytes
      → Action F (Connected S) (Result (Error F) ReqAddr)
  read_addr (Result.ok Socks5AddrType.ipv4) b0 buf = do
    buf ← read_into tcp buf 5 10
    bytes ← lift (slice buf 4 10)
    lift (attempt (parse_address_v4 bytes))
  read_addr (Result.ok Socks5AddrType.ipv6) b0 buf = do
    buf ← read_into tcp buf 5 22
    bytes ← lift (slice buf 4 22)
    lift (attempt (parse_address_v6 bytes))
  read_addr (Result.ok Socks5AddrType.domain) b0 buf = do
    buf ← read_into tcp buf 0 (b0 + 2)
    bytes ← lift (slice buf 0 (b0 + 2))
    r ← lift (attempt (parse_domain {F = F} utf8_error b0 bytes))
    lift (debug_domain debug r)
    lift (Outcome.ok r)
  read_addr (Result.err e) b0 buf = do
    send_final_response tcp address_type_not_supported default
    lift (Outcome.ok (Result.err e))

  unfoldable pub get_request : Action F (Connected S) ReqAddr
  unfolding read_addr finish_request
  get_request = do
    buf ← read_into tcp (replicate 255 0) 0 5
    p ← lift (at buf 0)
    when (not (p == socks5_protocol)) (fail (from_description (not_socks5_protocol p)))
    cmd ← lift (at buf 1)
    when (not (cmd == socks5_cmd_connect)) (do
      send_final_response tcp command_not_supported default
      fail (from_description cmd_not_connect))
    atyp ← lift (at buf 3)
    b0 ← lift (at buf 4)
    addr ← read_addr (try_from atyp) b0 buf
    finish_request tcp addr

  -- `IncomingClient::next_request`
  unfoldable pub next_request : Action F (Connected S) ReqAddr
  next_request = do authenticate_client tcp; get_request

module _ {F : Foreign} {S : Type 0} (tcp : Tcp F S) where
  -- `IncomingClient::abort`
  unfoldable pub abort : OutgoingError F → ReqAddr → Action F (Connected S) (Unit {0})
  abort err req = send_final_response tcp (get_reason err) req

  -- `self.stream.take().unwrap()`
  pub take_stream : Action F (Connected S) S
  take_stream c = (or_panic c.stream, record c { stream = none })

  -- `IncomingClient::ready_for_connect`
  unfoldable pub ready_for_connect : ReqAddr → Action F (Connected S) S
  unfolding take_stream
  ready_for_connect req = do send_final_response tcp success req; take_stream
