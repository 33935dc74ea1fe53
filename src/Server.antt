-- ===== src/Server.antt =====
-- The listening side: `Socks5Incoming` of src/socks5/incoming.rs, `get_incoming` of src/incoming.rs,
-- and the accept loop of src/main.rs. Binding and accepting are tokio's, and are parameters.
pub mod Loop
pub mod Main
use rocks.Base.{ℕ, zero, suc, List, [], ◌∷◌, Bool, true, false, Option, some}
use rocks.Addr.{SocketAddr}
use rocks.Config.{CfgAddr, IncomingType, IncomingConfig, OutgoingConfig, RocksConfig}
use rocks.Error.{Foreign, Error, Result, io, from_description, unsupported_incoming_type}
use rocks.Socks5.{Connected}

-- `TcpListener::bind`, and `accept`: a stream with the address of its peer, or an error.
pub record Listening (F : Foreign) (L S : Type 0) : Type 0 where
  pub bind : SocketAddr → Result F.IoError L
  pub accept : L → Result F.IoError (S × SocketAddr) × L

-- `Socks5Incoming`
pub record Socks5Incoming (L : Type 0) : Type 0 where
  pub listen_addr : SocketAddr
  pub listener : L

module _ {F : Foreign} {L S : Type 0} (net : Listening F L S)
    (into_addr : CfgAddr → Result (Error F) SocketAddr) where
  pub bind_listener : SocketAddr → Result F.IoError L → Result (Error F) (Socks5Incoming L)
  bind_listener a (Result.ok l) = Result.ok (record { listen_addr = a; listener = l })
  bind_listener a (Result.err e) = Result.err (io e)

  pub listen_on : Result (Error F) SocketAddr → Result (Error F) (Socks5Incoming L)
  unfolding bind_listener
  listen_on (Result.ok a) = bind_listener a (net.bind a)
  listen_on (Result.err e) = Result.err e

  -- `Socks5Incoming::from_cfg`; `into_addr` is that of the configured address.
  unfoldable pub from_cfg : CfgAddr → Result (Error F) (Socks5Incoming L)
  unfolding listen_on
  from_cfg conf = listen_on (into_addr conf)

  pub for_type : IncomingType → CfgAddr → Result (Error F) (Socks5Incoming L)
  unfolding from_cfg
  for_type IncomingType.socks5 conf = from_cfg conf
  for_type _ conf = Result.err (from_description unsupported_incoming_type)

  -- `get_incoming`
  unfoldable pub get_incoming : IncomingConfig → Result (Error F) (Socks5Incoming L)
  unfolding for_type
  get_incoming conf = for_type conf.incoming_type conf.listen_addr

module _ {F : Foreign} {L S : Type 0} (net : Listening F L S) where
  accepted : SocketAddr → Result F.IoError (S × SocketAddr) → Result (Error F) (Connected S)
  accepted here (Result.ok (s, peer)) =
      Result.ok (record { local_addr = here; remote_addr = peer; stream = some s })
  accepted here (Result.err e) = Result.err (io e)

  -- `next_client_impl`
  unfoldable pub next_client_impl :
      Socks5Incoming L → Result (Error F) (Connected S) × Socks5Incoming L
  unfolding accepted
  next_client_impl i = (
    accepted i.listen_addr (net.accept i.listener).0,
    record i { listener = (net.accept i.listener).1 },
  )

  -- The `loop` of `main`, for so many rounds: the clients that a task was spawned for, in order, and
  -- whether the loop has ended.
  unfoldable pub serve : ℕ → Socks5Incoming L → List (Connected S) × Bool
  serve zero i = ([], false)
  serve (suc n) i =
      let rest = serve n (next_client_impl i).1 in
      elim (next_client_impl i).0 [ Result.ok c ↦ (c ∷ rest.0, rest.1) | Result.err e ↦ ([], true) ]

  -- `main` after the configuration is read: its error, or the clients that it serves.
  unfoldable pub main_loop :
      (CfgAddr → Result (Error F) SocketAddr)
      → RocksConfig
      → ℕ
      → Result (Error F) (List (Connected S) × Bool)
  main_loop into_addr conf n = elim (get_incoming net into_addr conf.incoming) [
    | Result.ok incoming ↦ Result.ok (serve n incoming)
    | Result.err e ↦ Result.err e
  ]
