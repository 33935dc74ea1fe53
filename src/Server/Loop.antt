-- ===== src/Server/Loop.antt =====
-- What the accept loop serves, and where it begins.
use rocks.Base.{ℕ, zero, suc, ◌∙◌, ◌<◌, ◌≡◌, refl, ap, sym, List, [], ◌∷◌, true, arith, length}
use rocks.Addr.{SocketAddr}
use rocks.Config.{CfgAddr, IncomingType, IncomingConfig}
use rocks.Error.{Foreign, Error, Result}
use rocks.Socks5.{Connected}
use rocks.Server.{
  Listening, Socks5Incoming, next_client_impl, serve, get_incoming, for_type, listen_on,
  bind_listener,
}

module _ {F : Foreign} {L S : Type 0} (net : Listening F L S) where
  -- The listener accepts these clients one after the other, and is `j` then.
  pub data Accepts : Socks5Incoming L → List (Connected S) → Socks5Incoming L → Type 0 where
    none : {i : Socks5Incoming L} → Accepts i [] i
    next :
        {i j : Socks5Incoming L} {c : Connected S} {cs : List (Connected S)}
        → (next_client_impl net i).0 ≡ Result.ok c
        → Accepts (next_client_impl net i).1 cs j
        → Accepts i (c ∷ cs) j

  serve-ok :
      (n : ℕ) (i : Socks5Incoming L) {c : Connected S}
      → (next_client_impl net i).0 ≡ Result.ok c
      → serve net (suc n) i ≡ (
        c ∷ (serve net n (next_client_impl net i).1).0,
        (serve net n (next_client_impl net i).1).1,
      )
  unfolding serve
  serve-ok n i h = rw (h, serve)

  serve-err :
      (n : ℕ) (i : Socks5Incoming L) {e : Error F}
      → (next_client_impl net i).0 ≡ Result.err e
      → serve net (suc n) i ≡ ([], true)
  unfolding serve
  serve-err n i h = rw (h, serve)

  -- The loop spawns a task for each client that is accepted, in order, and ends at the first accept
  -- that fails.
  pub serve_ends :
      {i j : Socks5Incoming L} {cs : List (Connected S)} (n : ℕ) (e : Error F)
      → Accepts i cs j
      → (next_client_impl net j).0 ≡ Result.err e
      → length cs < n
      → serve net n i ≡ (cs, true)
  serve_ends zero e a h k = absurd (omega arith)
  serve_ends {i = i} (suc n) e none h k = serve-err n i h
  serve_ends {i = i} {j = j} (suc n) e (next {c = c} {cs = cs} ok more) h k =
      serve-ok n i ok
      ∙ rw (serve_ends {i = (next_client_impl net i).1} {j = j} n e more h (omega arith))

module _ {F : Foreign} {L S : Type 0} (net : Listening F L S)
    (into_addr : CfgAddr → Result (Error F) SocketAddr) where
  bound :
      (a : SocketAddr) (r : Result F.IoError L) (i : Socks5Incoming L)
      → net.bind a ≡ r
      → bind_listener net into_addr a r ≡ Result.ok i
      → (i.listen_addr ≡ a) × (net.bind i.listen_addr ≡ Result.ok i.listener)
  unfolding bind_listener
  bound a (Result.ok l) i b h = ground arith
  bound a (Result.err e) i b h = cc

  listening :
      (r : Result (Error F) SocketAddr) (i : Socks5Incoming L)
      → listen_on net into_addr r ≡ Result.ok i
      → (r ≡ Result.ok i.listen_addr) × (net.bind i.listen_addr ≡ Result.ok i.listener)
  unfolding listen_on
  listening (Result.ok a) i h =
      let (at, opened) = bound a (net.bind a) i refl h in (ap Result.ok (sym at), opened)
  listening (Result.err e) i h = cc

  typed :
      (t : IncomingType) (c : CfgAddr) (i : Socks5Incoming L)
      → for_type net into_addr t c ≡ Result.ok i
      → (t ≡ IncomingType.socks5)
        × (into_addr c ≡ Result.ok i.listen_addr)
        × (net.bind i.listen_addr ≡ Result.ok i.listener)
  unfolding for_type
  typed IncomingType.socks5 c i h =
      let (at, opened) = listening (into_addr c) i h in (refl, at, opened)
  typed IncomingType.rocks_type c i h = cc
  typed IncomingType.deny c i h = cc
  typed IncomingType.redirect c i h = cc

  -- Only the SOCKS5 type listens, and it listens at the address that the configuration stands for.
  pub get_incoming_sound :
      (conf : IncomingConfig) (i : Socks5Incoming L)
      → get_incoming net into_addr conf ≡ Result.ok i
      → (conf.incoming_type ≡ IncomingType.socks5)
        × (into_addr conf.listen_addr ≡ Result.ok i.listen_addr)
        × (net.bind i.listen_addr ≡ Result.ok i.listener)
  unfolding get_incoming
  get_incoming_sound conf i h = typed conf.incoming_type conf.listen_addr i h
