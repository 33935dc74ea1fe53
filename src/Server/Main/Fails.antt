-- ===== src/Server/Main/Fails.antt =====
-- How `main` of src/main.rs fails.
use Prim.Native.String.{String}
use rocks.Base.{ℕ, ◌≡◌, ◌≢◌, ◌↔◌, refl, ap, sym, subst, ◌∙◌, Option}
use rocks.Base.Words.{Bytes}
use rocks.Addr.{SocketAddr}
use rocks.Config.{CfgAddr, IncomingType, IncomingConfig, RocksConfig}
use rocks.Error.{
  Foreign, Error, Result, err_inj, io, config, from_description, unsupported_incoming_type,
}
use rocks.Server.{
  Listening, Socks5Incoming, main_loop, get_incoming, for_type, from_cfg, listen_on, bind_listener,
}
use rocks.Server.Main.Runs.{IsConfig, main-IsConfig}
use rocks.Server.Main.{Startup, config_path, with_config, on_config, on_bytes, on_file, main}

module _ {F : Foreign} {File L S : Type 0} (startup : Startup F File) (net : Listening F L S)
    (into_addr : CfgAddr → Result (Error F) SocketAddr) where
  -- Why the program ends before it serves.
  pub data Fails (path : Option String) : Error F → Type 0 where
    not_opened :
        {e : F.IoError} → startup.open_file (config_path path) ≡ Result.err e → Fails path (io e)
    not_read :
        {e : F.IoError} {file : File}
        → startup.open_file (config_path path) ≡ Result.ok file
        → startup.read_to_end file ≡ Result.err e
        → Fails path (io e)
    not_parsed :
        {e : F.TomlError} {file : File} {bytes : Bytes}
        → startup.open_file (config_path path) ≡ Result.ok file
        → startup.read_to_end file ≡ Result.ok bytes
        → startup.from_slice bytes ≡ Result.err e
        → Fails path (config e)
    wrong_type :
        {conf : RocksConfig}
        → IsConfig startup path conf
        → conf.incoming.incoming_type ≢ IncomingType.socks5
        → Fails path (from_description unsupported_incoming_type)
    no_addr :
        {conf : RocksConfig} {e : Error F}
        → IsConfig startup path conf
        → conf.incoming.incoming_type ≡ IncomingType.socks5
        → into_addr conf.incoming.listen_addr ≡ Result.err e
        → Fails path e
    not_bound :
        {conf : RocksConfig} {a : SocketAddr} {e : F.IoError}
        → IsConfig startup path conf
        → conf.incoming.incoming_type ≡ IncomingType.socks5
        → into_addr conf.incoming.listen_addr ≡ Result.ok a
        → net.bind a ≡ Result.err e
        → Fails path (io e)

  module _ (path : Option String) {conf : RocksConfig}
      (is_config : IsConfig startup path conf) where
    bind-Fails :
        (a : SocketAddr) (r : Result F.IoError L) {e : Error F}
        → conf.incoming.incoming_type ≡ IncomingType.socks5
        → into_addr conf.incoming.listen_addr ≡ Result.ok a
        → net.bind a ≡ r
        → bind_listener net into_addr a r ≡ Result.err e
        → Fails path e
    unfolding bind_listener
    bind-Fails a (Result.ok l) right addr_of bound h = cc
    bind-Fails a (Result.err x) right addr_of bound h =
        subst (Fails path) (err_inj h) (not_bound is_config right addr_of bound)

    addr-Fails :
        (r : Result (Error F) SocketAddr) {e : Error F}
        → conf.incoming.incoming_type ≡ IncomingType.socks5
        → into_addr conf.incoming.listen_addr ≡ r
        → listen_on net into_addr r ≡ Result.err e
        → Fails path e
    unfolding listen_on
    addr-Fails (Result.ok a) right addr_of h = bind-Fails a (net.bind a) right addr_of refl h
    addr-Fails (Result.err x) right addr_of h =
        subst (Fails path) (err_inj h) (no_addr is_config right addr_of)

    other-Fails :
        (t : IncomingType) {e : Error F}
        → conf.incoming.incoming_type ≡ t
        → t ≢ IncomingType.socks5
        → ◌≡◌ {A = Error F} (from_description unsupported_incoming_type) e
        → Fails path e
    other-Fails t right ne h = subst (Fails path) h (wrong_type is_config (λ s. ne (sym right ∙ s)))

    type-Fails :
        (t : IncomingType) {e : Error F}
        → conf.incoming.incoming_type ≡ t
        → for_type net into_addr t conf.incoming.listen_addr ≡ Result.err e
        → Fails path e
    unfolding for_type from_cfg
    type-Fails IncomingType.socks5 right h = addr-Fails _ right refl h
    type-Fails IncomingType.rocks_type right h = other-Fails _ right (λ e. cc) (err_inj h)
    type-Fails IncomingType.deny right h = other-Fails _ right (λ e. cc) (err_inj h)
    type-Fails IncomingType.redirect right h = other-Fails _ right (λ e. cc) (err_inj h)

    loop-Fails :
        (n : ℕ) (r : Result (Error F) (Socks5Incoming L)) {e : Error F}
        → get_incoming net into_addr conf.incoming ≡ r
        → with_config conf.outgoing (main_loop net into_addr conf n) ≡ Result.err e
        → get_incoming net into_addr conf.incoming ≡ Result.err e
    unfolding main_loop with_config
    loop-Fails n (Result.ok i) got h = let started = rw (main_loop, got) at h in cc
    loop-Fails n (Result.err x) got h = got ∙ ap Result.err (err_inj (rw (main_loop, got) at h))

    config-Fails :
        (n : ℕ) {e : Error F}
        → with_config conf.outgoing (main_loop net into_addr conf n) ≡ Result.err e
        → Fails path e
    unfolding get_incoming
    config-Fails n h = type-Fails _ refl (loop-Fails n _ refl h)

  module _ (path : Option String) (n : ℕ) {e : Error F} where
    bytes-Fails :
        (file : File) (bytes : Bytes) (r : Result F.TomlError RocksConfig)
        → startup.open_file (config_path path) ≡ Result.ok file
        → startup.read_to_end file ≡ Result.ok bytes
        → startup.from_slice bytes ≡ r
        → on_config startup net into_addr n r ≡ Result.err e
        → Fails path e
    unfolding on_config
    bytes-Fails file bytes (Result.ok conf) opened has_read parsed h =
        let is_config : IsConfig startup path conf = record {
          file = file;
          bytes = bytes;
          opened = opened;
          has_read = has_read;
          parsed = parsed;
        } in
        config-Fails path is_config n h
    bytes-Fails file bytes (Result.err x) opened has_read parsed h =
        subst (Fails path) (err_inj h) (not_parsed opened has_read parsed)

    file-Fails :
        (file : File) (r : Result F.IoError Bytes)
        → startup.open_file (config_path path) ≡ Result.ok file
        → startup.read_to_end file ≡ r
        → on_bytes startup net into_addr n r ≡ Result.err e
        → Fails path e
    unfolding on_bytes
    file-Fails file (Result.ok bytes) opened has_read h =
        bytes-Fails file bytes _ opened has_read refl h
    file-Fails file (Result.err x) opened has_read h =
        subst (Fails path) (err_inj h) (not_read opened has_read)

    path-Fails :
        (r : Result F.IoError File)
        → startup.open_file (config_path path) ≡ r
        → on_file startup net into_addr n r ≡ Result.err e
        → Fails path e
    unfolding on_file
    path-Fails (Result.ok file) opened h = file-Fails file _ opened refl h
    path-Fails (Result.err x) opened h = subst (Fails path) (err_inj h) (not_opened opened)

  get_incoming-other :
      (conf : IncomingConfig)
      → conf.incoming_type ≢ IncomingType.socks5
      → get_incoming net into_addr conf ≡ Result.err (from_description unsupported_incoming_type)
  unfolding get_incoming for_type
  get_incoming-other conf ne = for_other conf.incoming_type ne
    where
      for_other :
          (t : IncomingType)
          → t ≢ IncomingType.socks5
          → for_type net into_addr t conf.listen_addr
            ≡ Result.err (from_description unsupported_incoming_type)
      for_other IncomingType.socks5 ne = absurd (ne refl)
      for_other IncomingType.rocks_type ne = refl
      for_other IncomingType.deny ne = refl
      for_other IncomingType.redirect ne = refl

  stops :
      (path : Option String) (n : ℕ) {conf : RocksConfig} {e : Error F}
      → IsConfig startup path conf
      → get_incoming net into_addr conf.incoming ≡ Result.err e
      → main startup net into_addr path n ≡ Result.err e
  unfolding main_loop with_config
  stops path n is_config h =
      main-IsConfig startup net into_addr path n is_config ∙ rw (main_loop, h) refl

  Fails-main :
      (path : Option String) (n : ℕ) {e : Error F}
      → Fails path e
      → main startup net into_addr path n ≡ Result.err e
  unfolding main on_file on_bytes on_config get_incoming for_type from_cfg listen_on bind_listener
  Fails-main path n (not_opened h) = rw h refl
  Fails-main path n (not_read opened h) = rw (opened, h) refl
  Fails-main path n (not_parsed opened has_read h) = rw (opened, has_read, h) refl
  Fails-main path n (wrong_type {conf = conf} is_config ne) =
      stops path n is_config (get_incoming-other conf.incoming ne)
  Fails-main path n (no_addr {conf = conf} is_config right h) =
      stops path n is_config (rw (right, h) refl)
  Fails-main path n (not_bound {conf = conf} is_config right addr_of h) =
      stops path n is_config (rw (right, addr_of, h) refl)

  -- The program ends with an error exactly if the configuration file cannot be opened, read or parsed,
  -- or asks for another listener than a SOCKS5 one, or for an address that cannot be had or bound, and
  -- then with the error of that; no failing accept is an error of the program.
  pub main-Fails :
      (path : Option String) (n : ℕ) (e : Error F)
      → (main startup net into_addr path n ≡ Result.err e) ↔ Fails path e
  unfolding main
  main-Fails path n e = (λ h. path-Fails path n _ refl h, Fails-main path n)
