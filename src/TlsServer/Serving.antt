-- ===== src/TlsServer/Serving.antt =====
-- `serving` of src/hyper_tls_server.rs: a hyper server behind TLS. Files, keys, sockets, the resolver
-- and hyper are parameters, with the errors that `?` makes of theirs.
pub mod Starts
use Prim.Native.String.{String}
use rocks.Base.{ℕ, Option, none, some}
use rocks.Base.Words.{Bytes}
use rocks.Addr.{SocketAddr, ReqAddr}
use rocks.Error.{Result}

-- `Version`, as far as it is told apart.
pub data Version : Type 0 where
  http_11 other : Version

-- `ServerConfig`; `C` is the type of the configured address.
pub record ServerConfig (C : Type 0) : Type 0 where
  pub listen_addr : C
  pub keyfile : String
  pub pass : String

-- The service of `hyper_serving`: a text as the body of a response, or the error of the connection.
abbrev pub respond : Version → Result String String
respond http_11 = Result.ok "Hello World"
respond other = Result.err "not HTTP/1.1, abort connection"

-- What is called, with listeners `L`, acceptors `A`, identities `I` and files `File`.
pub record Calls (E C L A I File : Type 0) : Type 0 where
  pub try_from_cfg : C → Result E ReqAddr
  pub resolve_addr : ReqAddr → Result E (Option SocketAddr)
  pub unresolvable : String → E
  pub open_file : String → Result E File
  pub read_to_end : File → Result E Bytes
  pub from_pkcs12 : Bytes → String → Result E I
  pub new_acceptor : I → Result E A
  pub bind : SocketAddr → Result E L
  pub serve : L → A → (Version → Result String String) → Result E (Unit {0})

infixl 5 ◌>>=◌
abbrev pub ◌>>=◌ : {E A B : Type 0} → Result E A → (A → Result E B) → Result E B
Result.ok a >>= f = f a
Result.err e >>= f = Result.err e

abbrev pub ok_or_else : {E A : Type 0} → Option A → E → Result E A
ok_or_else (some a) e = Result.ok a
ok_or_else none e = Result.err e

module _ {E C L A I File : Type 0} (calls : Calls E C L A I File) where
  -- `tls_acceptor`
  unfoldable pub tls_acceptor : String → String → Result E A
  tls_acceptor priv_key pwd = do
    file ← calls.open_file priv_key
    bytes ← calls.read_to_end file
    identity ← calls.from_pkcs12 bytes pwd
    calls.new_acceptor identity

  -- `hyper_serving`
  unfoldable pub hyper_serving : L → A → Result E (Unit {0})
  hyper_serving incoming acceptor = calls.serve incoming acceptor respond

  -- `serving`
  unfoldable pub serving : ServerConfig C → Result E (Unit {0})
  unfolding tls_acceptor hyper_serving
  serving conf = do
    listen_addr ← calls.try_from_cfg conf.listen_addr
    resolved ← calls.resolve_addr listen_addr
    listen_addr ← ok_or_else resolved (calls.unresolvable "domain unresolvable")
    acceptor ← tls_acceptor conf.keyfile conf.pass
    listener ← calls.bind listen_addr
    hyper_serving listener acceptor
