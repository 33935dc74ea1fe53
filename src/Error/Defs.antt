-- ===== src/Error/Defs.antt =====
-- `Error`, `OutgoingError`, the outcome of a call, and the monad of a method call.
use rocks.Base.{ℕ, Bool, if◌then◌else◌}

-- The error types of the standard library, tokio and toml. Their values only pass through.
pub record Foreign : Type 1 where
  pub IoError : Type 0
  pub TomlError : Type 0
  pub AddrParseError : Type 0
  pub Utf8Error : Type 0

-- The texts of `Error::Description`, a constructor for each literal or format string.
pub data Description (F : Foreign) : Type 0 where
  not_socks5_protocol : ℕ → Description F
  no_supported_method : Description F
  cmd_not_connect : Description F
  ipv4_format_error ipv6_format_error : Description F
  local_resolve_failure : Description F
  unsupported_outgoing_type unsupported_incoming_type : Description F
  invalid_domain invalid_address_in_config : Description F
  copy_error_first_half copy_error_second_half : F.IoError → Description F

mutual
  pub data Error (F : Foreign) : Type 0 where
    io : F.IoError → Error F
    config : F.TomlError → Error F
    addr : F.AddrParseError → Error F
    description : Description F → Error F
    outgoing : OutgoingError F → Error F
    utf8 : F.Utf8Error → Error F
    not_connected : Error F
    invalid_socks5_addr_type : Error F

  pub data OutgoingError (F : Foreign) : Type 0 where
    general_failure : Error F → OutgoingError F
    network_unreachable : Error F → OutgoingError F
    host_unreachable : Error F → OutgoingError F
    connection_refused : Error F → OutgoingError F
    timed_out : Error F → OutgoingError F

-- `Error::from_description`
abbrev pub from_description : {F : Foreign} → Description F → Error F
from_description d = description d

-- `Result`, for calls that cannot panic.
pub data Result (E A : Type 0) : Type 0 where
  ok : A → Result E A
  err : E → Result E A

-- How a call ends: `Ok`, `Err` or a panic.
pub data Outcome (F : Foreign) (A : Type 0) : Type 0 where
  ok : A → Outcome F A
  err : Error F → Outcome F A
  panic : Outcome F A

-- The `?` on an `std::io::Result`.
abbrev pub io_outcome : {F : Foreign} {A : Type 0} → Result F.IoError A → Outcome F A
io_outcome (Result.ok a) = Outcome.ok a
io_outcome (Result.err e) = Outcome.err (io e)

abbrev pub and_then : {F : Foreign} {A B : Type 0} → Outcome F A → (A → Outcome F B) → Outcome F B
and_then (Outcome.ok a) f = f a
and_then (Outcome.err e) f = Outcome.err e
and_then Outcome.panic f = Outcome.panic

-- A method call on an object of type `S`: its outcome, and the object after it.
abbrev pub Action : Foreign → Type 0 → Type 0 → Type 0
Action F S A = S → Outcome F A × S

abbrev pub resume : {F : Foreign} {S A B : Type 0} → Outcome F A → (A → Action F S B) → Action F S B
resume (Outcome.ok a) f s = f a s
resume (Outcome.err e) f s = (Outcome.err e, s)
resume Outcome.panic f s = (Outcome.panic, s)

infixl 5 ◌>>=◌ ◌>>◌
abbrev pub ◌>>=◌ : {F : Foreign} {S A B : Type 0} → Action F S A → (A → Action F S B) → Action F S B
◌>>=◌ m f s = resume (m s).0 f (m s).1

abbrev pub ◌>>◌ : {F : Foreign} {S A B : Type 0} → Action F S A → Action F S B → Action F S B
m >> k = m >>= λ _. k

-- A call that does not touch the object.
abbrev pub lift : {F : Foreign} {S A : Type 0} → Outcome F A → Action F S A
lift o s = (o, s)

-- `if b { body }`, where the body may return from the method by `?`.
abbrev pub when : {F : Foreign} {S : Type 0} → Bool → Action F S (Unit {0}) → Action F S (Unit {0})
when b body = if b then body else lift (Outcome.ok tt)

-- `Err(e)?`
abbrev pub fail : {F : Foreign} {S A : Type 0} → Error F → Action F S A
fail e = lift (Outcome.err e)

-- A call whose `Err` is kept as a value, while a panic goes on.
abbrev pub attempt : {F : Foreign} {A : Type 0} → Outcome F A → Outcome F (Result (Error F) A)
attempt (Outcome.ok a) = Outcome.ok (Result.ok a)
attempt (Outcome.err e) = Outcome.ok (Result.err e)
attempt Outcome.panic = Outcome.panic

-- The same for a method call.
abbrev pub try : {F : Foreign} {S A : Type 0} → Action F S A → Action F S (Result (Error F) A)
try m s = (attempt (m s).0, (m s).1)
