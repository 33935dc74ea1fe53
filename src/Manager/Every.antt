-- ===== src/Manager/Every.antt =====
-- `handle_client` on a SOCKS5 client, on every input.
use rocks.Base.{
  ◌≤◌, ◌≡◌, ◌⊎◌, inl, inr, refl, ap, ◌∙◌, ◌++◌, arith, Bool, true, false, Option, some,
}
use rocks.Base.Words.{Bytes, IsBytes}
use rocks.Addr.{ReqAddr}
use rocks.Net.{Tcp, TcpLaws}
use rocks.Error.{
  Foreign, OutgoingError, Outcome, Result, >>=-ok, try, attempt, io, general_failure,
  from_description, unsupported_outgoing_type,
}
use rocks.Config.{OutgoingConfig, OutgoingType}
use rocks.Outgoing.{TargetOs, Network, process_request_impl}
use rocks.Socks5.{Connected, success, get_reason}
use rocks.Socks5.Wire.{OnWire, Runs, Runs-panic, Runs-try}
use rocks.Socks5.Wire.Breaks.{Breaks}
use rocks.Socks5.Request.{next_request}
use rocks.Socks5.Request.Decides.{
  Verdict, other_protocol, other_command, other_type, an_ipv4, an_ipv6, a_name, no_utf8, long_name,
}
use rocks.Socks5.Every.{
  CutShort, Exchange, other_greeting, no_method, accepted, next_request_decides,
}
use rocks.Socks5.Reply.Encode.{reply_bytes, name_length}
use rocks.Manager.{Report, aborted, request_error, handle_client, handle_request}
use rocks.Manager.Handle.{
  socks5_client, direct, handle, report_of, handle_request_error, refuse, turn_away, serve,
}

-- The address of a request has a name that fits into a reply.
abbrev Fits : {F : Foreign} → Outcome F ReqAddr → Type 0
Fits (Outcome.ok r) = name_length r ≤ 254
Fits (Outcome.err e) = Unit {0}
Fits Outcome.panic = Unit {0}

Verdict-Fits :
    {F : Foreign} {utf8_error : Bytes → Option F.Utf8Error} (debug : Bool)
    {inp out left out' : Bytes} {r : Outcome F ReqAddr}
    → Verdict F utf8_error debug out inp r left out'
    → Fits r
Verdict-Fits debug (other_protocol p cmd reserved t b0 rest h) = tt
Verdict-Fits debug (other_command cmd reserved t b0 rest h) = tt
Verdict-Fits debug (other_type reserved t b0 rest h k l) = tt
Verdict-Fits debug (an_ipv4 reserved a b c d p q rest h k) = omega arith
Verdict-Fits debug (an_ipv6 reserved a b c d e f g h p rest range) = omega arith
Verdict-Fits debug (a_name reserved p name rest short h valid) = omega (arith, short)
Verdict-Fits true (no_utf8 reserved p name rest short invalid) = tt
Verdict-Fits false (no_utf8 reserved p name rest short invalid) = tt
Verdict-Fits debug (long_name reserved len rest long) = tt

Exchange-Fits :
    {F : Foreign} {utf8_error : Bytes → Option F.Utf8Error} {debug : Bool}
    {inp out left out' : Bytes} {r : Outcome F ReqAddr}
    → Exchange out F utf8_error debug inp r left out'
    → Fits r
Exchange-Fits (other_greeting p n rest h) = tt
Exchange-Fits (no_method methods rest few h) = tt
Exchange-Fits {debug = debug} (accepted methods few offered v) = Verdict-Fits debug v

-- What the outgoing side of a configuration makes of a request.
abbrev pub reached :
    {F : Foreign} {O : Type 0}
    → Network F O
    → TargetOs
    → OutgoingType
    → ReqAddr
    → Result (OutgoingError F) O
reached net os OutgoingType.direct r = process_request_impl net os r
reached net os OutgoingType.rocks_type r =
    Result.err (general_failure (from_description unsupported_outgoing_type))
reached net os OutgoingType.ignore r =
    Result.err (general_failure (from_description unsupported_outgoing_type))

module _ {F : Foreign} {S O : Type 0} {tcp : Tcp F S} (laws : TcpLaws tcp)
    (utf8_error : Bytes → Option F.Utf8Error) (debug : Bool) (net : Network F O) (os : TargetOs)
    (copy : S → O → Outcome F (Unit {0})) (cfg : OutgoingConfig) (c : Connected S) where
  abbrev handled : Outcome F (Report F) × Connected S
  handled = handle laws utf8_error debug net os copy cfg c

  -- A client whose request was read is served on the new connection, or told why there is none.
  abbrev pub Answered : ReqAddr → Result (OutgoingError F) O → Bytes → Bytes → Type 0
  Answered r (Result.ok o) left mid =
      (s : S) × (handled.0 ≡ report_of (copy s o))
      × (laws.pending s ≡ left)
      × (laws.sent s ≡ mid ++ reply_bytes success r)
  Answered r (Result.err e) left mid =
      (handled.0 ≡ Outcome.ok aborted)
      × OnWire laws handled.1 left (mid ++ reply_bytes (get_reason e) r)

  -- What the handling comes to, after the exchange that has given `q` and left `left` unread and `mid`
  -- written.
  abbrev pub Concluded : Outcome F ReqAddr → Bytes → Bytes → Type 0
  Concluded (Outcome.ok r) left mid = Answered r (reached net os cfg.outgoing_type r) left mid
  Concluded (Outcome.err e) left mid =
      (handled.0 ≡ Outcome.ok (request_error e)) × OnWire laws handled.1 left mid
  Concluded Outcome.panic left mid = handled.0 ≡ Outcome.panic

  broken_off :
      {inp out out' : Bytes}
      → OnWire laws c inp out
      → Breaks laws (next_request tcp utf8_error debug) inp out out'
      → (e : F.IoError) × (s : S) × (handled.0 ≡ Outcome.ok (request_error (io e)))
        × (handled.1.stream ≡ some s)
        × (laws.sent s ≡ out')
  unfolding handle_client handle_request
  broken_off w breaks =
      let (e, s, failed, kept, sent_is) = breaks.breaks c w in
      let ran =
        >>=-ok (try (next_request tcp utf8_error debug))
          (handle_request (socks5_client tcp utf8_error debug) copy (direct net os) cfg) c
          (ap attempt failed) in
      (e, s, ap (λ x. x.0) ran, ap (λ x. x.1.stream) ran ∙ kept, sent_is)

  module _ {inp out left mid : Bytes} (w : OnWire laws c inp out) where
    by_network :
        (r : ReqAddr) (q : Result (OutgoingError F) O)
        → cfg.outgoing_type ≡ OutgoingType.direct
        → process_request_impl net os r ≡ q
        → name_length r ≤ 254
        → Runs laws (next_request tcp utf8_error debug) inp out (Outcome.ok r) left mid
        → Answered r q left mid
    by_network r (Result.ok o) is_direct h fits read =
        serve laws utf8_error debug net os copy cfg r inp out left mid o c is_direct fits h read w
    by_network r (Result.err e) is_direct h fits read =
        (refuse laws utf8_error debug net os copy cfg r inp out left mid e is_direct fits h
            read).run
          c w

    by_type :
        (r : ReqAddr) (t : OutgoingType)
        → cfg.outgoing_type ≡ t
        → name_length r ≤ 254
        → Runs laws (next_request tcp utf8_error debug) inp out (Outcome.ok r) left mid
        → Answered r (reached net os t r) left mid
    unfolding get_reason
    by_type r OutgoingType.direct h fits read =
        by_network r (process_request_impl net os r) h refl fits read
    by_type r OutgoingType.rocks_type h fits read =
        (turn_away laws utf8_error debug net os copy cfg r inp out left mid (λ d. cc) fits read).run
          c w
    by_type r OutgoingType.ignore h fits read =
        (turn_away laws utf8_error debug net os copy cfg r inp out left mid (λ d. cc) fits read).run
          c w

    conclude :
        (q : Outcome F ReqAddr)
        → Fits q
        → Runs laws (next_request tcp utf8_error debug) inp out q left mid
        → Concluded q left mid
    unfolding handle_client
    conclude (Outcome.ok r) fits read = by_type r cfg.outgoing_type refl fits read
    conclude (Outcome.err e) fits read =
        (handle_request_error laws utf8_error debug net os copy cfg inp out left mid e read).run c w
    conclude Outcome.panic fits read = ((Runs-panic laws _ (Runs-try laws read)).run c w).0

  -- Whatever bytes a client sends, over a connection that has not failed, one of two things comes of
  -- it. They end before the greeting or the request does, by their own lengths: then the error of the
  -- stream is logged, and nothing is written but the answer to a whole greeting. Or they are what
  -- `Exchange` says, and the handling ends by what that comes to: after an error, that error is logged
  -- and nothing more is written; after a panic it panics; and after an address, if the configuration's
  -- outgoing side connects, the client is told of the success and its stream, with all the rest still
  -- to be read, is what is copied, and otherwise it is told the reason and no more.
  pub handle_decides :
      (inp out : Bytes)
      → IsBytes inp
      → OnWire laws c inp out
      → ((out' : Bytes) × CutShort out inp out'
          × ((e : F.IoError) × (s : S) × (handled.0 ≡ Outcome.ok (request_error (io e)))
              × (handled.1.stream ≡ some s)
              × (laws.sent s ≡ out')))
        ⊎ ((q : Outcome F ReqAddr) × (left : Bytes) × (mid : Bytes) × Exchange out F utf8_error
              debug inp q left mid
            × Concluded q left mid)
  handle_decides inp out h w = elim (next_request_decides out F utf8_error debug laws inp h) [
    | inl (out', cut, breaks) ↦ inl (out', cut, broken_off w breaks)
    | inr (q, left, mid, e, read) ↦ inr (q, left, mid, e, conclude w q (Exchange-Fits e) read)
  ]
