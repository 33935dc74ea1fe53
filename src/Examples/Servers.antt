-- ===== src/Examples/Servers.antt =====
-- Accepting clients, at a concrete script of what the listener accepts.
use rocks.Base.{ℕ, List, [], ◌∷◌, some, none}
use rocks.Addr.{SocketAddr}
use rocks.Config.{CfgAddr, IncomingType, IncomingConfig}
use rocks.Error.{Error, Result}
use rocks.Server.{Listening, Socks5Incoming}
use rocks.Socks5.{Connected}
use rocks.Examples.Memory.{plain, here, server}

-- A listener is the list of the streams that it will accept.
abbrev pub script : Listening plain (List ℕ) ℕ
script = record {
  bind = λ a. Result.ok (3 ∷ 4 ∷ []);
  accept = λ l. elim l [ [] ↦ (Result.err 24, []) | s ∷ rest ↦ (Result.ok (s, server), rest) ];
}

abbrev listener : Socks5Incoming (List ℕ)
listener = record { listen_addr = here; listener = 3 ∷ 4 ∷ [] }

abbrev pub spawned : ℕ → Connected ℕ
spawned s = record { local_addr = here; remote_addr = server; stream = some s }

abbrev pub at_here : CfgAddr → Result (Error plain) SocketAddr
at_here c = Result.ok here

abbrev pub incoming_config : IncomingConfig
incoming_config = record {
  incoming_type = IncomingType.socks5;
  userfile = none;
  listen_addr = record { ip = none; domain = none; port = 4080 };
  ssl = none;
}
