-- ===== src/Server/Main.antt =====
-- `main` of src/main.rs: the configuration file, and the clients that are served by it. The arguments
-- are clap's, the file system is the standard library's and the format toml's: all are parameters.
pub mod Fails
pub mod Runs
use Prim.Native.String.{String}
use rocks.Base.{ℕ, List, [], map, Bool, Option, none, some}
use rocks.Base.Words.{Bytes}
use rocks.Addr.{SocketAddr}
use rocks.Config.{CfgAddr, OutgoingConfig, RocksConfig}
use rocks.Error.{Foreign, Error, Result, io, config}
use rocks.Server.{Listening, main_loop}
use rocks.Socks5.{Connected}

-- `File::open`, `read_to_end` and `toml::from_slice`.
pub record Startup (F : Foreign) (File : Type 0) : Type 0 where
  pub open_file : String → Result F.IoError File
  pub read_to_end : File → Result F.IoError Bytes
  pub from_slice : Bytes → Result F.TomlError RocksConfig

-- `matches.value_of("config").unwrap_or("config.toml")`
abbrev pub config_path : Option String → String
config_path (some path) = path
config_path none = "config.toml"

abbrev pub Spawned : Foreign → Type 0 → Type 0
Spawned F S = Result (Error F) (List (Connected S × OutgoingConfig) × Bool)

-- The tasks that the loop spawns: each client, with the configuration of the outgoing side.
pub with_config :
    {F : Foreign} {S : Type 0}
    → OutgoingConfig
    → Result (Error F) (List (Connected S) × Bool)
    → Spawned F S
with_config outgoing (Result.ok (clients, ended)) =
    Result.ok (map (λ c. (c, outgoing)) clients, ended)
with_config outgoing (Result.err e) = Result.err e

module _ {F : Foreign} {File L S : Type 0} (startup : Startup F File) (net : Listening F L S)
    (into_addr : CfgAddr → Result (Error F) SocketAddr) where
  pub on_config : ℕ → Result F.TomlError RocksConfig → Spawned F S
  unfolding with_config
  on_config n (Result.ok conf) = with_config conf.outgoing (main_loop net into_addr conf n)
  on_config n (Result.err e) = Result.err (config e)

  pub on_bytes : ℕ → Result F.IoError Bytes → Spawned F S
  unfolding on_config
  on_bytes n (Result.ok bytes) = on_config n (startup.from_slice bytes)
  on_bytes n (Result.err e) = Result.err (io e)

  pub on_file : ℕ → Result F.IoError File → Spawned F S
  unfolding on_bytes
  on_file n (Result.ok file) = on_bytes n (startup.read_to_end file)
  on_file n (Result.err e) = Result.err (io e)

  -- `main`, for so many rounds of its loop: its error, or what it spawns and whether it has ended.
  unfoldable pub main : Option String → ℕ → Spawned F S
  unfolding on_file
  main path n = on_file n (startup.open_file (config_path path))
