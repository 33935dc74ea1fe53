-- ===== src/Tls.antt =====
-- src/tls_stream.rs: a TLS session over a socket that may not be ready. The session is rustls's and
-- the socket tokio's: both are parameters. The loops run on fuel, and `none` means that it ran out.
pub mod Flush
pub mod Ends
pub mod Rounds
pub mod Closed
pub mod Accepted
pub mod Reads
use rocks.Base.{
  ℕ, zero, suc, Bool, true, false, not, ◌&&◌, Option, none, some, List, [], ◌∷◌, ◌==◌,
  if◌then◌else◌, length, ltb,
}
use rocks.Base.Words.{Bytes}
use rocks.Connection.{Socket}
use rocks.Error.{Foreign, Result}

-- The errors of a socket: `WouldBlock`, `InvalidData` with the session's error in it, or another.
pub data IoFailure (E X : Type 0) : Type 0 where
  would_block : IoFailure E X
  invalid_data : E → IoFailure E X
  other : X → IoFailure E X

pub data Poll (A : Type 0) : Type 0 where
  pending : Poll A
  ready : A → Poll A

-- What the stream calls of a session of type `S` and a socket of type `T`.
pub record Session (E X S T : Type 0) : Type 0 where
  pub wants_read : S → Bool
  pub wants_write : S → Bool
  pub is_handshaking : S → Bool
  pub read_tls : S → T → Result (IoFailure E X) ℕ × S × T
  pub process_new_packets : S → Result E (Unit {0}) × S
  pub write_tls : S → T → Result (IoFailure E X) ℕ × S × T
  pub read : S → ℕ → Result (IoFailure E X) Bytes × S
  pub write : S → Bytes → Result (IoFailure E X) ℕ × S
  pub shutdown : T → Result (IoFailure E X) (Unit {0}) × T
  pub poll_shutdown : T → Result (IoFailure E X) (Unit {0}) × T

-- `TlsStream`
pub record TlsStream (S T : Type 0) : Type 0 where
  pub stream : T
  pub session : S
  pub eof : Bool

-- `TlsStream::new`
abbrev pub new : {S T : Type 0} → T → S → TlsStream S T
new stream session = record { stream = stream; session = session; eof = false }

-- `TlsStream` as a `Connection`: its addresses are those of the socket.
abbrev pub socket_of : {F : Foreign} {S T : Type 0} → Socket F T → Socket F (TlsStream S T)
socket_of socket = record {
  local_addr = λ t. socket.local_addr t.stream;
  peer_addr = λ t. socket.peer_addr t.stream;
}

infixl 5 ◌>>=◌
abbrev pub ◌>>=◌ : {A B : Type 0} → Option A → (A → Option B) → Option B
none >>= f = none
some a >>= f = f a

module _ {E X S T : Type 0} (tls : Session E X S T) where
  abbrev pub Io : Type 0 → Type 0
  Io A = Result (IoFailure E X) A

  -- What a loop's round comes to: the value that is returned from it, or none to go on.
  after_packets : Result E (Unit {0}) → Option (Poll (Io (Unit {0})))
  after_packets (Result.ok _) = none
  after_packets (Result.err e) = some (Poll.ready (Result.err (invalid_data e)))

  after_read : Io ℕ → TlsStream S T → Option (Poll (Io (Unit {0}))) × TlsStream S T
  unfolding after_packets
  after_read (Result.ok n) t =
      if n == 0 then (some (Poll.ready (Result.ok tt)), record t { eof = true }) else (
        after_packets (tls.process_new_packets t.session).0,
        record t { session = (tls.process_new_packets t.session).1 },
      )
  after_read (Result.err would_block) t = (some Poll.pending, t)
  after_read (Result.err e) t = (some (Poll.ready (Result.err e)), t)

  -- A round of the `while` of `check_read`.
  pub read_round : TlsStream S T → Option (Poll (Io (Unit {0}))) × TlsStream S T
  unfolding after_read
  read_round t =
      let (n, session, stream) = tls.read_tls t.session t.stream in
      after_read n (record t { session = session; stream = stream })

  unfoldable pub check_read : ℕ → TlsStream S T → Option (Poll (Io (Unit {0})) × TlsStream S T)
  unfolding read_round
  check_read zero t = none
  check_read (suc fuel) t = elim (not t.eof && tls.wants_read t.session) [
    | false ↦ some (Poll.ready (Result.ok tt), t)
    | true ↦ elim (read_round t).0 [
      | some p ↦ some (p, (read_round t).1)
      | none ↦ check_read fuel (read_round t).1
    ]
  ]

  after_write : Io ℕ → Option (Poll (Io (Unit {0})))
  after_write (Result.ok n) = none
  after_write (Result.err would_block) = some Poll.pending
  after_write (Result.err e) = some (Poll.ready (Result.err e))

  -- A round of the `while` of `check_write`.
  pub write_round : TlsStream S T → Option (Poll (Io (Unit {0}))) × TlsStream S T
  unfolding after_write
  write_round t =
      let (n, session, stream) = tls.write_tls t.session t.stream in
      (after_write n, record t { session = session; stream = stream })

  unfoldable pub check_write : ℕ → TlsStream S T → Option (Poll (Io (Unit {0})) × TlsStream S T)
  unfolding write_round
  check_write zero t = none
  check_write (suc fuel) t = elim (tls.wants_write t.session) [
    | false ↦ some (Poll.ready (Result.ok tt), t)
    | true ↦ elim (write_round t).0 [
      | some p ↦ some (p, (write_round t).1)
      | none ↦ check_write fuel (write_round t).1
    ]
  ]

  -- The `match` on both results, of which the second call is made whatever the first gives.
  both_done : Poll (Io (Unit {0})) → Poll (Io (Unit {0})) → Bool → Poll (Io (Unit {0}))
  both_done (Poll.ready (Result.ok _)) (Poll.ready (Result.ok _)) handshaking =
      Poll.ready (Result.ok tt)
  both_done (Poll.ready (Result.err e)) _ handshaking = Poll.ready (Result.err e)
  both_done _ (Poll.ready (Result.err e)) handshaking = Poll.ready (Result.err e)
  both_done _ _ handshaking = if handshaking then Poll.pending else Poll.ready (Result.ok tt)

  unfoldable pub complete_io : ℕ → TlsStream S T → Option (Poll (Io (Unit {0})) × TlsStream S T)
  unfolding both_done
  complete_io fuel t = do
    (r, t) ← check_read fuel t
    (w, t) ← check_write fuel t
    some (both_done r w (tls.is_handshaking t.session), t)

  unfoldable pub check_would_block : {A : Type 0} → Poll (Io A) → Io A
  check_would_block (Poll.ready r) = r
  check_would_block Poll.pending = Result.err would_block

  -- `Self::check_would_block(..)?`, and what follows it.
  pub unblocked :
      {A : Type 0}
      → Option (Poll (Io (Unit {0})) × TlsStream S T)
      → (TlsStream S T → Option (Io A × TlsStream S T))
      → Option (Io A × TlsStream S T)
  unfolding check_would_block
  unblocked none k = none
  unblocked (some (p, t)) k = elim (check_would_block p) [
    | Result.ok _ ↦ k t
    | Result.err e ↦ some (Result.err e, t)
  ]

  pub some_bytes : Io Bytes → Io Bytes
  some_bytes (Result.ok bs) = if ltb 0 (length bs) then Result.ok bs else Result.err would_block
  some_bytes (Result.err e) = Result.err e

  -- `read` with a buffer of so many bytes: the bytes put into it, whose number is returned.
  unfoldable pub read : ℕ → TlsStream S T → ℕ → Option (Io Bytes × TlsStream S T)
  unfolding unblocked some_bytes
  read fuel t n = unblocked (complete_io fuel t) λ t.
      if t.eof
      then some (Result.ok [], t)
      else some
          (some_bytes (tls.read t.session n).0, record t { session = (tls.read t.session n).1 })

  -- The end of `write`, after the session's answer.
  written : ℕ → Io ℕ → TlsStream S T → Option (Io ℕ × TlsStream S T)
  unfolding unblocked
  written fuel (Result.ok n) t = unblocked (check_write fuel t) λ t. some (Result.ok n, t)
  written fuel (Result.err e) t = some (Result.err e, t)

  shut : Io (Unit {0}) → Io ℕ
  shut (Result.ok _) = Result.ok 0
  shut (Result.err e) = Result.err e

  write_some : ℕ → TlsStream S T → Bytes → Option (Io ℕ × TlsStream S T)
  unfolding unblocked written
  write_some fuel t buf = unblocked (complete_io fuel t) λ t.
      written fuel (tls.write t.session buf).0 (record t { session = (tls.write t.session buf).1 })

  unfoldable pub write : ℕ → TlsStream S T → Bytes → Option (Io ℕ × TlsStream S T)
  unfolding write_some shut
  write fuel t [] =
      some (shut (tls.shutdown t.stream).0, record t { stream = (tls.shutdown t.stream).1 })
  write fuel t (b ∷ bs) = if t.eof then some (Result.ok 0, t) else write_some fuel t (b ∷ bs)

  unfoldable pub flush : ℕ → TlsStream S T → Option (Io (Unit {0}) × TlsStream S T)
  unfolding check_would_block
  flush fuel t = do (p, t) ← check_write fuel t; some (check_would_block p, t)

  -- `AsyncWrite::shutdown`, where `Async::NotReady` is `pending`.
  unfoldable pub shutdown : ℕ → TlsStream S T → Option (Poll (Io (Unit {0})) × TlsStream S T)
  shutdown fuel t = elim (tls.poll_shutdown t.stream).0 [
    | Result.ok _ ↦ complete_io fuel (record t { stream = (tls.poll_shutdown t.stream).1 })
    | Result.err e ↦
        some (Poll.ready (Result.err e), record t { stream = (tls.poll_shutdown t.stream).1 })
  ]
