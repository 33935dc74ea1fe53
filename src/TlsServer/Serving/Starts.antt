-- ===== src/TlsServer/Serving/Starts.antt =====
-- What the server of src/hyper_tls_server.rs needs to start.
use Prim.Native.String.{String}
use rocks.Base.{◌≡◌, ◌↔◌, refl, ap, ◌∙◌, Option, none, some}
use rocks.Base.Words.{Bytes}
use rocks.Addr.{SocketAddr, ReqAddr}
use rocks.Error.{Result}
use rocks.TlsServer.Serving.{
  ServerConfig, respond, Calls, ◌>>=◌, ok_or_else, tls_acceptor, hyper_serving, serving,
}

>>=-eq-ok :
    {E A B : Type 0} (m : Result E A) (f : A → Result E B) {b : B}
    → (m >>= f) ≡ Result.ok b
    → (a : A) × (m ≡ Result.ok a) × (f a ≡ Result.ok b)
>>=-eq-ok (Result.ok a) f h = (a, refl, h)
>>=-eq-ok (Result.err e) f h = cc

ok_or_else-eq-ok :
    {E A : Type 0} (o : Option A) (e : E) {a : A} → ok_or_else o e ≡ Result.ok a → o ≡ some a
ok_or_else-eq-ok (some a) e h = cc
ok_or_else-eq-ok none e h = cc

module _ {E C L A I File : Type 0} (calls : Calls E C L A I File) where
  -- Every step succeeds: the address resolves, the key file holds an identity for the password that
  -- an acceptor can be made of, the address can be bound, and hyper ends without an error.
  pub record Serves (conf : ServerConfig C) : Type 0 where
    pub address : ReqAddr
    pub resolved : SocketAddr
    pub file : File
    pub bytes : Bytes
    pub identity : I
    pub acceptor : A
    pub listener : L
    pub has_address : calls.try_from_cfg conf.listen_addr ≡ Result.ok address
    pub resolves : calls.resolve_addr address ≡ Result.ok (some resolved)
    pub opened : calls.open_file conf.keyfile ≡ Result.ok file
    pub has_read : calls.read_to_end file ≡ Result.ok bytes
    pub identifies : calls.from_pkcs12 bytes conf.pass ≡ Result.ok identity
    pub accepts : calls.new_acceptor identity ≡ Result.ok acceptor
    pub bound : calls.bind resolved ≡ Result.ok listener
    pub ends_well : calls.serve listener acceptor respond ≡ Result.ok tt

  tls_acceptor-eq-ok :
      (key pass : String) {a : A}
      → tls_acceptor calls key pass ≡ Result.ok a
      → (file : File) × (bytes : Bytes) × (identity : I) × (calls.open_file key ≡ Result.ok file)
        × (calls.read_to_end file ≡ Result.ok bytes)
        × (calls.from_pkcs12 bytes pass ≡ Result.ok identity)
        × (calls.new_acceptor identity ≡ Result.ok a)
  unfolding tls_acceptor
  tls_acceptor-eq-ok key pass h =
      let (file, opened, h) = >>=-eq-ok (calls.open_file key) _ h in
      let (bytes, has_read, h) = >>=-eq-ok (calls.read_to_end file) _ h in
      let (identity, identifies, h) = >>=-eq-ok (calls.from_pkcs12 bytes pass) _ h in
      (file, bytes, identity, opened, has_read, identifies, h)

  serving-Serves : (conf : ServerConfig C) → serving calls conf ≡ Result.ok tt → Serves conf
  unfolding serving hyper_serving
  serving-Serves conf h =
      let (address, has_address, h) = >>=-eq-ok (calls.try_from_cfg conf.listen_addr) _ h in
      let (found, looked_up, h) = >>=-eq-ok (calls.resolve_addr address) _ h in
      let (resolved, is_found, h) =
        >>=-eq-ok (ok_or_else found (calls.unresolvable "domain unresolvable")) _ h in
      let (acceptor, accepted, h) = >>=-eq-ok (tls_acceptor calls conf.keyfile conf.pass) _ h in
      let (listener, bound, h) = >>=-eq-ok (calls.bind resolved) _ h in
      let (file, bytes, identity, opened, has_read, identifies, accepts) =
        tls_acceptor-eq-ok conf.keyfile conf.pass accepted in
      record {
        address = address;
        resolved = resolved;
        file = file;
        bytes = bytes;
        identity = identity;
        acceptor = acceptor;
        listener = listener;
        has_address = has_address;
        resolves = looked_up ∙ ap Result.ok (ok_or_else-eq-ok found _ is_found);
        opened = opened;
        has_read = has_read;
        identifies = identifies;
        accepts = accepts;
        bound = bound;
        ends_well = h;
      }

  Serves-serving : (conf : ServerConfig C) → Serves conf → serving calls conf ≡ Result.ok tt
  unfolding serving tls_acceptor hyper_serving
  Serves-serving conf s =
      rw (s.has_address, s.resolves, s.opened, s.has_read, s.identifies, s.accepts, s.bound)
        s.ends_well

  -- The server ends without an error exactly if each of its steps succeeds.
  pub serving_iff : (conf : ServerConfig C) → (serving calls conf ≡ Result.ok tt) ↔ Serves conf
  serving_iff conf = (serving-Serves conf, Serves-serving conf)
