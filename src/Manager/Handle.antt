-- ===== src/Manager/Handle.antt =====
-- `handle_client` on a SOCKS5 client, with the methods of src/socks5/incoming.rs and the direct
-- connections of src/outgoing.rs put in, once the request is read.
use rocks.Base.{◌≤◌, ◌≡◌, ◌≢◌, refl, ap, ◌++◌, Bool, Option}
use rocks.Base.Words.{Bytes}
use rocks.Addr.{ReqAddr}
use rocks.Net.{Tcp, TcpLaws}
use rocks.Error.{
  Foreign, Error, OutgoingError, Outcome, Result, Action, ◌>>=◌, >>=-ok, lift, try, attempt,
  general_failure, from_description, unsupported_outgoing_type,
}
use rocks.Config.{OutgoingConfig, OutgoingType}
use rocks.Outgoing.{
  DirectOutgoing, direct_outgoing, TargetOs, Network, get_outgoing, process_request_impl,
}
use rocks.Socks5.{Connected, success, general_proxy_failure, get_reason}
use rocks.Socks5.Request.{next_request, abort, ready_for_connect}
use rocks.Socks5.Reply.Encode.{reply_bytes, name_length}
use rocks.Socks5.Session.{abort-Runs, ready_for_connect_lem}
use rocks.Socks5.Wire.{OnWire, Runs, Runs-bind, Runs-lift, Runs-try}
use rocks.Manager.{
  IncomingClient, Outgoing, Report, served, aborted, request_error, transfer_error, handle_client,
  handle_request, transfer, transfer_report,
}

-- The implementation of `IncomingClient` for `Socks5Connected`.
abbrev pub socks5_client :
    {F : Foreign} {S : Type 0}
    → Tcp F S
    → (Bytes → Option F.Utf8Error)
    → Bool
    → IncomingClient F (Connected S) S
socks5_client tcp utf8_error debug = record {
  next_request = next_request tcp utf8_error debug;
  abort = abort tcp;
  ready_for_connect = ready_for_connect tcp;
}

-- The implementation of `Outgoing` for `DirectOutgoing`.
abbrev pub direct :
    {F : Foreign} {O : Type 0} → Network F O → TargetOs → DirectOutgoing → Outgoing F O
direct net os direct_outgoing = record { process_request = process_request_impl net os }

no_outgoing :
    {F : Foreign} (t : OutgoingType)
    → t ≢ OutgoingType.direct
    → get_outgoing {F = F} t ≡ Result.err (from_description unsupported_outgoing_type)
unfolding get_outgoing
no_outgoing OutgoingType.rocks_type h = refl
no_outgoing OutgoingType.direct h = absurd (h refl)
no_outgoing OutgoingType.ignore h = refl

-- The report on how the copying ended.
abbrev pub report_of : {F : Foreign} → Outcome F (Unit {0}) → Outcome F (Report F)
report_of (Outcome.ok _) = Outcome.ok served
report_of (Outcome.err e) = Outcome.ok (transfer_error e)
report_of Outcome.panic = Outcome.panic

module _ {F : Foreign} {S O : Type 0} {tcp : Tcp F S} (laws : TcpLaws tcp)
    (utf8_error : Bytes → Option F.Utf8Error) (debug : Bool) (net : Network F O) (os : TargetOs)
    (copy : S → O → Outcome F (Unit {0})) where
  -- `handle_client` on a SOCKS5 client.
  abbrev pub handle : OutgoingConfig → Action F (Connected S) (Report F)
  handle = handle_client (socks5_client tcp utf8_error debug) copy (direct net os)

  -- A request that is not read, for whatever error, is answered no more, and the error is logged.
  pub handle_request_error :
      (cfg : OutgoingConfig) (inp out inp' out' : Bytes) (e : Error F)
      → Runs laws (next_request tcp utf8_error debug) inp out (Outcome.err e) inp' out'
      → Runs laws (handle cfg) inp out (Outcome.ok (request_error e)) inp' out'
  unfolding handle_client
  handle_request_error cfg inp out inp' out' e p =
      Runs-bind laws _ (Runs-try laws p) (Runs-lift laws _ inp' out')

  -- A request that is read and that the network cannot serve is answered by the code for the reason.
  pub refuse :
      (cfg : OutgoingConfig) (r : ReqAddr) (inp out rest mid : Bytes) (e : OutgoingError F)
      → cfg.outgoing_type ≡ OutgoingType.direct
      → name_length r ≤ 254
      → process_request_impl net os r ≡ Result.err e
      → Runs laws (next_request tcp utf8_error debug) inp out (Outcome.ok r) rest mid
      → Runs laws
          (handle cfg)
          inp
          out
          (Outcome.ok aborted)
          rest
          (mid ++ reply_bytes (get_reason e) r)
  unfolding handle_client
  refuse cfg r inp out rest mid e is_direct fits failed read =
      Runs-bind laws _ (Runs-try laws read) (
        rw (is_direct, failed)
          (Runs-bind laws _ (Runs-try laws (abort-Runs laws e r rest mid fits))
            (Runs-lift laws _ rest _)))

  -- With another outgoing type than the direct one it is answered by the code for a general failure.
  pub turn_away :
      (cfg : OutgoingConfig) (r : ReqAddr) (inp out rest mid : Bytes)
      → cfg.outgoing_type ≢ OutgoingType.direct
      → name_length r ≤ 254
      → Runs laws (next_request tcp utf8_error debug) inp out (Outcome.ok r) rest mid
      → Runs laws
          (handle cfg)
          inp
          out
          (Outcome.ok aborted)
          rest
          (mid ++ reply_bytes general_proxy_failure r)
  unfolding handle_client get_reason
  turn_away cfg r inp out rest mid other fits read = Runs-bind laws _ (Runs-try laws read) (
      rw (no_outgoing cfg.outgoing_type other) (
        Runs-bind laws _
          (Runs-try laws (
            abort-Runs laws (general_failure (from_description unsupported_outgoing_type)) r rest
              mid fits))
          (Runs-lift laws _ rest _)))

  -- A request that is read and that the network serves is answered by success, and the stream goes to
  -- the copying.
  pub serve :
      (cfg : OutgoingConfig) (r : ReqAddr) (inp out rest mid : Bytes) (o : O) (c : Connected S)
      → cfg.outgoing_type ≡ OutgoingType.direct
      → name_length r ≤ 254
      → process_request_impl net os r ≡ Result.ok o
      → Runs laws (next_request tcp utf8_error debug) inp out (Outcome.ok r) rest mid
      → OnWire laws c inp out
      → (s : S) × ((handle cfg c).0 ≡ report_of (copy s o))
        × (laws.pending s ≡ rest)
        × (laws.sent s ≡ mid ++ reply_bytes success r)
  unfolding handle_client
  serve cfg r inp out rest mid o c is_direct fits reached reads w =
      let read = (Runs-try laws reads).run c w in
      let c1 = (next_request tcp utf8_error debug c).1 in
      let (s, ready, pending_is, sent_is, _) =
        ready_for_connect_lem laws r rest mid c1 fits read.1 in
      (
        s,
        rw
            (
              >>=-ok (try (next_request tcp utf8_error debug))
                  (handle_request client copy (direct net os) cfg) c read.0,
              is_direct,
              reached,
              >>=-ok (try (ready_for_connect tcp r)) (λ i. transfer client copy i o) c1
                  (ap attempt ready),
            )
            (end_report (copy s o) (ready_for_connect tcp r c1).1),
        pending_is,
        sent_is,
      )
    where
      client : IncomingClient F (Connected S) S
      client = socks5_client tcp utf8_error debug

      end_report :
          (q : Outcome F (Unit {0})) (c : Connected S)
          → ((try (lift q) >>= (λ done. lift (Outcome.ok (transfer_report client copy done)))) c).0
            ≡ report_of q
      end_report (Outcome.ok _) c = refl
      end_report (Outcome.err e) c = refl
      end_report Outcome.panic c = refl
