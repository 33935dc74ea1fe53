-- ===== src/Rocks/Packet/Reads.antt =====
-- Which forms stand for which packets.
use rocks.Base.{ℕ, ◌≡◌, ◌↔◌, refl, subst, ◌∙◌, Option, none, some}
use rocks.Base.Words.{Bytes}
use rocks.Addr.{IpAddr, ReqAddr, ip, domain}
use rocks.Error.{Result, ok_inj}
use rocks.Rocks.Packet.{
  Method, Field, Parsers, RocksPacket, get_packet, post_packet, connect_packet, Parsed, ◌>>=◌,
  uuid_of, port_of, host_addr, match_fields, new,
}

uuid_of-eq-ok :
    {U P Uuid : Type 0} (r : Result U Uuid) {id : Uuid}
    → uuid_of {P = P} r ≡ Result.ok id
    → r ≡ Result.ok id
uuid_of-eq-ok (Result.ok u) h = cc
uuid_of-eq-ok (Result.err e) h = cc

port_of-eq-ok :
    {U P : Type 0} (r : Result P ℕ) {p : ℕ} → port_of {U = U} r ≡ Result.ok p → r ≡ Result.ok p
port_of-eq-ok (Result.ok u) h = cc
port_of-eq-ok (Result.err e) h = cc

>>=-eq-ok :
    {U P A B : Type 0} (m : Parsed U P A) (f : A → Parsed U P B) {b : B}
    → (m >>= f) ≡ Result.ok b
    → (a : A) × (m ≡ Result.ok a) × (f a ≡ Result.ok b)
>>=-eq-ok (Result.ok a) f h = (a, refl, h)
>>=-eq-ok (Result.err e) f h = cc

module _ {Uuid U P E : Type 0} (parsers : Parsers Uuid U P E) where
  -- The form of a packet on a connection: its id alone.
  pub record OfConn (m : Method) (map : Field → Option Bytes) (wanted : Method) (id : Uuid)
      : Type 0 where
    pub text : Bytes
    pub right_method : m ≡ wanted
    pub no_user : map Field.user ≡ none
    pub no_host : map Field.host ≡ none
    pub no_port : map Field.port ≡ none
    pub conn_text : map Field.conn ≡ some text
    pub conn_read : parsers.parse_uuid text ≡ Result.ok id

  -- `HostIs host p a`: the text of a host with a port is the socket address `a`, if the text reads as
  -- an IP address, and otherwise the domain that it names.
  pub data HostIs (host : Bytes) (p : ℕ) : ReqAddr → Type 0 where
    an_address :
        (a : IpAddr)
        → parsers.parse_ip host ≡ Result.ok a
        → HostIs host p (ip (record { ip = a; port = p }))
    a_domain : (e : E) → parsers.parse_ip host ≡ Result.err e → HostIs host p (domain host p)

  read_host :
      (host : Bytes) (p : ℕ) (r : Result E IpAddr)
      → parsers.parse_ip host ≡ r
      → HostIs host p (host_addr r host p)
  read_host host p (Result.ok a) h = an_address a h
  read_host host p (Result.err e) h = a_domain e h

  host_addr-HostIs :
      {host : Bytes} {p : ℕ} {a : ReqAddr}
      → HostIs host p a
      → host_addr (parsers.parse_ip host) host p ≡ a
  host_addr-HostIs (an_address a h) = rw h refl
  host_addr-HostIs (a_domain e h) = rw h refl

  -- The form of a packet that asks for a connection: a user, a host and a port.
  pub record OfUser (map : Field → Option Bytes) (id : Uuid) (addr : ReqAddr) : Type 0 where
    pub user_text : Bytes
    pub host_text : Bytes
    pub port_text : Bytes
    pub p : ℕ
    pub has_user : map Field.user ≡ some user_text
    pub has_host : map Field.host ≡ some host_text
    pub has_port : map Field.port ≡ some port_text
    pub no_conn : map Field.conn ≡ none
    pub user_read : parsers.parse_uuid user_text ≡ Result.ok id
    pub port_read : parsers.parse_port port_text ≡ Result.ok p
    pub addr_read : HostIs host_text p addr

  -- What a form with this method stands for.
  abbrev pub StandsFor :
      {R : Type 0} → Method → (Field → Option Bytes) → R → RocksPacket Uuid R → Type 0
  StandsFor m map resp (get_packet id r) = OfConn m map Method.get id × (r ≡ resp)
  StandsFor m map resp (post_packet id r) = OfConn m map Method.post id × (r ≡ resp)
  StandsFor m map resp (connect_packet id a r) = OfUser map id a × (r ≡ resp)

  of_conn :
      {R : Type 0} (m : Method) (map : Field → Option Bytes) (resp : R) {wanted : Method}
      {id : Uuid}
      → (h : OfConn m map wanted id)
      → new parsers m map resp ≡ match_fields parsers wanted none none none (some h.text) resp
  unfolding new
  of_conn m map resp h = λ i.
      match_fields parsers (h.right_method i) (h.no_user i) (h.no_host i) (h.no_port i)
        (h.conn_text i) resp

  of_user :
      {R : Type 0} (m : Method) (map : Field → Option Bytes) (resp : R) {id : Uuid} {a : ReqAddr}
      → (h : OfUser map id a)
      → new parsers m map resp
        ≡ match_fields parsers m (some h.user_text) (some h.host_text) (some h.port_text) none resp
  unfolding new
  of_user m map resp h =
      λ i. match_fields parsers m (h.has_user i) (h.has_host i) (h.has_port i) (h.no_conn i) resp

  new-StandsFor :
      {R : Type 0} (m : Method) (map : Field → Option Bytes) (resp : R)
      (packet : RocksPacket Uuid R)
      → StandsFor m map resp packet
      → new parsers m map resp ≡ Result.ok packet
  unfolding match_fields
  new-StandsFor m map resp (get_packet id r) (h, same) =
      of_conn m map resp h ∙ rw (h.conn_read, same) refl
  new-StandsFor m map resp (post_packet id r) (h, same) =
      of_conn m map resp h ∙ rw (h.conn_read, same) refl
  new-StandsFor m map resp (connect_packet id a r) (h, same) =
      of_user m map resp h ∙ rw (h.user_read, h.port_read, same, host_addr-HostIs h.addr_read) refl

  conn_back :
      (m : Method) (map : Field → Option Bytes) (c : Bytes)
      → map Field.user ≡ none
      → map Field.host ≡ none
      → map Field.port ≡ none
      → map Field.conn ≡ some c
      → (id : Uuid) → uuid_of {P = P} (parsers.parse_uuid c) ≡ Result.ok id
      → OfConn m map m id
  conn_back m map c nu nh np hc id read = record {
    text = c;
    right_method = refl;
    no_user = nu;
    no_host = nh;
    no_port = np;
    conn_text = hc;
    conn_read = uuid_of-eq-ok (parsers.parse_uuid c) read;
  }

  read_back :
      {R : Type 0} (m : Method) (map : Field → Option Bytes) (resp : R)
      (packet : RocksPacket Uuid R) (ou oh op oc : Option Bytes)
      → map Field.user ≡ ou
      → map Field.host ≡ oh
      → map Field.port ≡ op
      → map Field.conn ≡ oc
      → match_fields parsers m ou oh op oc resp ≡ Result.ok packet
      → StandsFor m map resp packet
  unfolding match_fields
  read_back m map resp packet (some u) (some h) (some p) none hu hh hp hc e =
      let (id, user_read, rest) = >>=-eq-ok (uuid_of (parsers.parse_uuid u)) _ e in
      let (n, port_read, made) = >>=-eq-ok (port_of (parsers.parse_port p)) _ rest in
      subst (StandsFor m map resp) (ok_inj made) (
        record {
          user_text = u;
          host_text = h;
          port_text = p;
          p = n;
          has_user = hu;
          has_host = hh;
          has_port = hp;
          no_conn = hc;
          user_read = uuid_of-eq-ok (parsers.parse_uuid u) user_read;
          port_read = port_of-eq-ok (parsers.parse_port p) port_read;
          addr_read = read_host h n (parsers.parse_ip h) refl;
        },
        refl,
      )
  read_back Method.get map resp packet none none none (some c) hu hh hp hc e =
      let (id, read, made) = >>=-eq-ok (uuid_of (parsers.parse_uuid c)) _ e in
      subst (StandsFor Method.get map resp) (ok_inj made)
        (conn_back Method.get map c hu hh hp hc id read, refl)
  read_back Method.post map resp packet none none none (some c) hu hh hp hc e =
      let (id, read, made) = >>=-eq-ok (uuid_of (parsers.parse_uuid c)) _ e in
      subst (StandsFor Method.post map resp) (ok_inj made)
        (conn_back Method.post map c hu hh hp hc id read, refl)
  read_back _ _ _ _ _ _ _ _ _ _ _ _ e = cc

  -- A form is read as a packet exactly if it stands for it: an id of a connection alone under GET or
  -- POST, or the id of a user with a host and a port and no connection, under any method, where the
  -- host is an address if it reads as one and a domain if not.
  pub new_iff :
      {R : Type 0} (m : Method) (map : Field → Option Bytes) (resp : R)
      (packet : RocksPacket Uuid R)
      → (new parsers m map resp ≡ Result.ok packet) ↔ StandsFor m map resp packet
  unfolding new
  new_iff m map resp packet =
      (read_back m map resp packet _ _ _ _ refl refl refl refl, new-StandsFor m map resp packet)
