-- ===== src/Rocks/Incoming.antt =====
-- `RocksIncoming` of src/rocks/mod.rs: the TLS listener in front of the hyper server. Sockets, the
-- reading of keys and addresses, and the copying are parameters.
pub mod Loop
use Prim.Native.String.{String}
use mathlib.Core.Option as Option
use rocks.Base.{ℕ, zero, suc, false, List, [], ◌∷◌, Option, none, some}
use rocks.Addr.{SocketAddr}
use rocks.Error.{Result}
use rocks.Store
use rocks.Store.{ConnectionManager}
use rocks.Tls.{TlsStream, new}

-- `RocksIncoming`; `C` is the TLS configuration, and the stored connections are of type `X`, by keys
-- of type `K`.
pub record RocksIncoming (C K X : Type 0) : Type 0 where
  pub ssl_conf : C
  pub connection_manager : ConnectionManager K X
  pub listen_addr : SocketAddr
  pub fallback_addr : SocketAddr

-- `config_rustls_server`, and `parse` of a socket's address.
pub record Setup (C E : Type 0) : Type 0 where
  pub config_rustls_server : String → String → Result E C
  pub parse : String → Result E SocketAddr

-- What is called of tokio and rustls, and `copy`.
pub record Sockets (C N E L S : Type 0) : Type 0 where
  pub bind : SocketAddr → Result E L
  pub next : L → Option (Result E S) × L
  pub new_session : C → N
  pub connect : SocketAddr → Result E S
  pub copy : TlsStream N S → S → Result E (Unit {0})

-- What is spawned: the hyper server on its address, or the handling of what an accept gave.
pub data Task (E S : Type 0) : Type 0 where
  start_server : SocketAddr → Task E S
  client : Result E S → Task E S

module _ {E : Type 0} where
  infixl 5 ◌>>=◌
  abbrev ◌>>=◌ : {A B : Type 0} → Result E A → (A → Result E B) → Result E B
  Result.ok a >>= f = f a
  Result.err e >>= f = Result.err e

  -- `RocksIncoming::test`
  unfoldable pub test : {C K X : Type 0} → Setup C E → Result E (RocksIncoming C K X)
  test setup = setup.config_rustls_server "key.pem" "cert.pem" >>= λ conf.
      setup.parse "127.0.0.1:8443" >>= λ listen. setup.parse "127.0.0.1:8888" >>= λ fallback.
      Result.ok (record {
        ssl_conf = conf;
        connection_manager = Store.new;
        listen_addr = listen;
        fallback_addr = fallback;
      })

module _ {C N E L S : Type 0} (sockets : Sockets C N E L S) where
  -- `handle_client`
  unfoldable pub handle_client :
      {K X : Type 0} → RocksIncoming C K X → Result E S → Result E (Unit {0})
  handle_client this stream = stream >>= λ s. sockets.connect this.fallback_addr >>= λ conn.
      sockets.copy (new s (sockets.new_session this.ssl_conf)) conn

  -- The task of a client: the error that it logs, if any.
  unfoldable pub handled : {K X : Type 0} → RocksIncoming C K X → Result E S → Option E
  unfolding handle_client
  handled this stream = elim (handle_client this stream) [
    | Result.ok _ ↦ none
    | Result.err e ↦ some e
  ]

  -- The `while let` of `start_impl`, for so many rounds: what is spawned, or none if the rounds were
  -- not enough.
  unfoldable pub accept_all : ℕ → L → Option (List (Task E S))
  accept_all zero l = none
  accept_all (suc n) l =
      let rest = accept_all n (sockets.next l).1 in
      elim (sockets.next l).0 [
        | none ↦ some []
        | some stream ↦ Option.map (λ ts. client stream ∷ ts) rest
      ]

  start_on : ℕ → SocketAddr → Result E L → Option (Result E (Unit {0}) × List (Task E S))
  unfolding accept_all
  start_on n fallback (Result.err e) = some (Result.err e, [])
  start_on n fallback (Result.ok l) =
      Option.map (λ ts. (Result.ok tt, start_server fallback ∷ ts)) (accept_all n l)

  -- `start_impl`: its result, with what it has spawned in order.
  unfoldable pub start_impl :
      {K X : Type 0} → ℕ → RocksIncoming C K X → Option (Result E (Unit {0}) × List (Task E S))
  unfolding start_on
  start_impl n this = start_on n this.fallback_addr (sockets.bind this.listen_addr)
