-- ===== src/Examples/Memory.antt =====
-- A connection that is a list of bytes to read and a list of bytes written, a network and a
-- configuration, all concrete.
use rocks.Base.{
  ℕ, ◌≤◌, ◌<◌, ◌≡◌, refl, ap, [], ◌∷◌, ◌++◌, arith, true, Option, some, none, length, take, drop,
  leb, le→leb, lt→leb_false, if◌then◌else◌, ◌==◌,
}
use rocks.Base.Words.{Bytes}
use rocks.Base.Int.{pos}
use rocks.Addr.{SocketAddr, v4}
use rocks.Config.{OutgoingConfig, OutgoingType}
use rocks.Error.{Foreign, Result}
use rocks.Net.{Tcp, TcpLaws}
use rocks.Outgoing.{Network}
use rocks.Socks5.{Connected}
use rocks.Socks5.Wire.{OnWire}

abbrev pub plain : Foreign
plain = record { IoError = ℕ; TomlError = ℕ; AddrParseError = ℕ; Utf8Error = ℕ }

pub record Memory : Type 0 where
  pub input : Bytes
  pub output : Bytes

abbrev pub memory_tcp : Tcp plain Memory
memory_tcp = record {
  read_exact = λ s n.
      if leb n (length s.input)
      then (Result.ok (take n s.input), record s { input = drop n s.input })
      else (Result.err 0, s);
  write_all = λ s bs. (Result.ok tt, record s { output = s.output ++ bs });
}

pub read_enough :
    (s : Memory) (n : ℕ)
    → n ≤ length s.input
    → memory_tcp.read_exact s n ≡ (Result.ok (take n s.input), record s { input = drop n s.input })
read_enough s n h = rw (le→leb n (length s.input) h)

pub read_short :
    (s : Memory) (n : ℕ) → length s.input < n → memory_tcp.read_exact s n ≡ (Result.err 0, s)
read_short s n h = rw (lt→leb_false n (length s.input) h)

pub read_keeps_sent : (s : Memory) (n : ℕ) → (memory_tcp.read_exact s n).1.output ≡ s.output
read_keeps_sent s n = ground arith

unfoldable pub memory_laws : TcpLaws memory_tcp
memory_laws = record {
  pending = λ s. s.input;
  sent = λ s. s.output;
  healthy = λ s. true;
  read_result = λ s n h enough. ap (λ r. r.0) (read_enough s n enough);
  read_pending = λ s n h enough. ap (λ r. r.1.input) (read_enough s n enough);
  read_healthy = λ s n h enough. refl;
  read_eof = λ s n h short. (0, ap (λ r. r.0) (read_short s n short));
  read_sent = read_keeps_sent;
  write_result = λ s bs h. refl;
  write_sent = λ s bs h. refl;
  write_pending = λ s bs. refl;
  write_healthy = λ s bs h. refl;
}

abbrev pub here : SocketAddr
here = record { ip = v4 127 0 0 1; port = 4080 }

-- A client that has sent `bs`.
abbrev pub client_with : Bytes → Connected Memory
client_with bs = record {
  local_addr = here;
  remote_addr = here;
  stream = some (record { input = bs; output = [] });
}

pub client_with-OnWire : (bs : Bytes) → OnWire memory_laws (client_with bs) bs []
unfolding memory_laws
client_with-OnWire bs = record {
  tcp_stream = record { input = bs; output = [] };
  connected = refl;
  is_healthy = refl;
  pending_is = refl;
  sent_is = refl;
}

-- Bytes are UTF-8 unless the first one is 255.
abbrev pub ascii : Bytes → Option ℕ
ascii [] = none
ascii (b ∷ bs) = if b == 255 then some 7 else none

abbrev pub server : SocketAddr
server = record { ip = v4 10 0 0 7; port = 443 }

-- Every name resolves to `server`, and only port 80 is open.
abbrev pub network : Network plain ℕ
network = record {
  lookup = λ name port. Result.ok (server ∷ []);
  connect = λ a. if a.port == 80 then Result.ok 5 else Result.err 110;
  is_refused = λ e. e == 111;
  raw_os_error = λ e. some (pos e);
}

abbrev pub direct_config : OutgoingConfig
direct_config = record { outgoing_type = OutgoingType.direct; user = none; listen_addr = none }
