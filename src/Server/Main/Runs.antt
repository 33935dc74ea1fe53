-- ===== src/Server/Main/Runs.antt =====
-- How `main` of src/main.rs starts, and what it serves.
use Prim.Native.String.{String}
use rocks.Base.{ℕ, ◌<◌, ◌≡◌, refl, ◌∙◌, List, map, true, Option, length}
use rocks.Base.Words.{Bytes}
use rocks.Addr.{SocketAddr}
use rocks.Config.{CfgAddr, IncomingType, IncomingConfig, RocksConfig}
use rocks.Error.{Foreign, Error, Result}
use rocks.Server.{
  Listening, Socks5Incoming, next_client_impl, main_loop, get_incoming, for_type, listen_on,
  bind_listener,
}
use rocks.Server.Loop.{Accepts, serve_ends}
use rocks.Server.Main.{Startup, config_path, with_config, on_config, on_bytes, on_file, main}
use rocks.Socks5.{Connected}

module _ {F : Foreign} {File : Type 0} (startup : Startup F File) where
  -- The file is a configuration.
  pub record IsConfig (path : Option String) (conf : RocksConfig) : Type 0 where
    pub file : File
    pub bytes : Bytes
    pub opened : startup.open_file (config_path path) ≡ Result.ok file
    pub has_read : startup.read_to_end file ≡ Result.ok bytes
    pub parsed : startup.from_slice bytes ≡ Result.ok conf

module _ {F : Foreign} {File L S : Type 0} (startup : Startup F File) (net : Listening F L S)
    (into_addr : CfgAddr → Result (Error F) SocketAddr) where
  -- It asks for a SOCKS5 listener, which this is.
  pub record Listens (conf : IncomingConfig) (i : Socks5Incoming L) : Type 0 where
    pub right_type : conf.incoming_type ≡ IncomingType.socks5
    pub right_addr : into_addr conf.listen_addr ≡ Result.ok i.listen_addr
    pub bound : net.bind i.listen_addr ≡ Result.ok i.listener

  get_incoming-Listens :
      (conf : IncomingConfig) (i : Socks5Incoming L)
      → Listens conf i
      → get_incoming net into_addr conf ≡ Result.ok i
  unfolding get_incoming for_type listen_on bind_listener
  get_incoming-Listens conf i h = rw (h.right_type, h.right_addr, h.bound) refl

  pub main-IsConfig :
      (path : Option String) (n : ℕ) {conf : RocksConfig}
      → IsConfig startup path conf
      → main startup net into_addr path n
        ≡ with_config conf.outgoing (main_loop net into_addr conf n)
  unfolding main on_file on_bytes on_config
  main-IsConfig path n h = rw (h.opened, h.has_read, h.parsed) refl

  -- With a configuration that asks for a SOCKS5 listener on an address that can be bound, a task is
  -- spawned for each client that is accepted, in order, with the configuration of the outgoing side,
  -- until an accept fails, and then the program ends without an error.
  pub main_serves :
      (path : Option String) (n : ℕ) {conf : RocksConfig} {i j : Socks5Incoming L}
      {cs : List (Connected S)} {e : Error F}
      → IsConfig startup path conf
      → Listens conf.incoming i
      → Accepts net i cs j
      → (next_client_impl net j).0 ≡ Result.err e
      → length cs < n
      → main startup net into_addr path n ≡ Result.ok (map (λ c. (c, conf.outgoing)) cs, true)
  unfolding main_loop with_config
  main_serves path n {conf = conf} {i = i} {e = e} is_config listens accepts fails enough =
      main-IsConfig path n is_config
      ∙ rw
          (
            main_loop,
            get_incoming-Listens conf.incoming i listens,
            serve_ends net n e accepts fails enough,
          )
          refl
