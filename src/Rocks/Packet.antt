-- ===== src/Rocks/Packet.antt =====
-- `RocksPacket` of src/rocks/actix_app.rs: the packets that a form of the service stands for.
pub mod Reads
use rocks.Base.{ℕ, Option, none, some, List, [], ◌∷◌, ◌++◌}
use rocks.Base.Words.{Bytes}
use rocks.Addr.{SocketAddr, IpAddr, ReqAddr, from_addr, from_domain}
use rocks.Error.{Result}

-- `Method`, as far as it is told apart.
pub data Method : Type 0 where
  get post other : Method

-- The keys that are looked up in the form.
pub data Field : Type 0 where
  user host port conn : Field

-- `Uuid::parse_str`, `parse::<u16>` and `IpAddr::from_str`.
pub record Parsers (Uuid UuidError PortError AddrError : Type 0) : Type 0 where
  pub parse_uuid : Bytes → Result UuidError Uuid
  pub parse_port : Bytes → Result PortError ℕ
  pub parse_ip : Bytes → Result AddrError IpAddr

-- `Error`, from those of the parsers and with the text of `bail!`.
pub data PacketError (UuidError PortError : Type 0) : Type 0 where
  uuid_error : UuidError → PacketError UuidError PortError
  port_error : PortError → PacketError UuidError PortError
  unrecognised : PacketError UuidError PortError

-- `RocksPacket`; the sender of the answer is of type `R`.
pub data RocksPacket (Uuid R : Type 0) : Type 0 where
  get_packet : (conn : Uuid) → (resp : R) → RocksPacket Uuid R
  post_packet : (conn : Uuid) → (resp : R) → RocksPacket Uuid R
  connect_packet : (user : Uuid) → (addr : ReqAddr) → (resp : R) → RocksPacket Uuid R

abbrev pub Parsed : Type 0 → Type 0 → Type 0 → Type 0
Parsed UuidError PortError A = Result (PacketError UuidError PortError) A

infixl 5 ◌>>=◌
abbrev pub ◌>>=◌ : {U P A B : Type 0} → Parsed U P A → (A → Parsed U P B) → Parsed U P B
Result.ok a >>= f = f a
Result.err e >>= f = Result.err e

-- `Uuid::parse_str(..)?`
abbrev pub uuid_of : {U P A : Type 0} → Result U A → Parsed U P A
uuid_of (Result.ok u) = Result.ok u
uuid_of (Result.err e) = Result.err (uuid_error e)

-- `port.parse::<u16>()?`
abbrev pub port_of : {U P : Type 0} → Result P ℕ → Parsed U P ℕ
port_of (Result.ok p) = Result.ok p
port_of (Result.err e) = Result.err (port_error e)

-- The `match` on the host: an address if it reads as one, and else a domain.
abbrev pub host_addr : {E : Type 0} → Result E IpAddr → Bytes → ℕ → ReqAddr
host_addr (Result.ok ip) name p = from_addr (record { ip = ip; port = p })
host_addr (Result.err _) name p = from_domain name p

module _ {Uuid U P E : Type 0} (parsers : Parsers Uuid U P E) {R : Type 0} where
  connect_fields : Bytes → Bytes → Bytes → R → Parsed U P (RocksPacket Uuid R)
  connect_fields user_text name port_text resp = uuid_of (parsers.parse_uuid user_text) >>= λ u.
      port_of (parsers.parse_port port_text) >>= λ p.
      Result.ok (connect_packet u (host_addr (parsers.parse_ip name) name p) resp)

  -- The `match` on the method and what the form has.
  match_fields :
      Method
      → Option Bytes
      → Option Bytes
      → Option Bytes
      → Option Bytes
      → R
      → Parsed U P (RocksPacket Uuid R)
  unfolding connect_fields
  match_fields m (some u) (some h) (some p) none resp = connect_fields u h p resp
  match_fields Method.get none none none (some c) resp =
      uuid_of (parsers.parse_uuid c) >>= λ id. Result.ok (get_packet id resp)
  match_fields Method.post none none none (some c) resp =
      uuid_of (parsers.parse_uuid c) >>= λ id. Result.ok (post_packet id resp)
  match_fields _ _ _ _ _ resp = Result.err unrecognised

  -- `RocksPacket::new`
  unfoldable pub new : Method → (Field → Option Bytes) → R → Parsed U P (RocksPacket Uuid R)
  unfolding match_fields
  new m map resp =
      match_fields m (map Field.user) (map Field.host) (map Field.port) (map Field.conn) resp
