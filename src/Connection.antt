-- ===== src/Connection.antt =====
-- src/connection.rs: the addresses of a connection, and copying between two connections. The sockets
-- and `tokio::io::copy` are parameters.
pub mod Bicopy
use rocks.Base.{ℕ, Option}
use rocks.Addr.{SocketAddr, ReqAddr, from_addr, port}
use rocks.Error.{
  Foreign, Error, Outcome, Result, io, io_outcome, and_then, from_description,
  copy_error_first_half, copy_error_second_half,
}

-- `local_addr` and `peer_addr` of a socket.
pub record Socket (F : Foreign) (C : Type 0) : Type 0 where
  pub local_addr : C → Result F.IoError SocketAddr
  pub peer_addr : C → Result F.IoError SocketAddr

module _ {F : Foreign} {C : Type 0} (socket : Socket F C) where
  -- `Connection::l_addr` and `Connection::p_addr`
  unfoldable pub l_addr : C → Outcome F ReqAddr
  l_addr c = and_then (io_outcome (socket.local_addr c)) λ a. Outcome.ok (from_addr a)

  unfoldable pub p_addr : C → Outcome F ReqAddr
  p_addr c = and_then (io_outcome (socket.peer_addr c)) λ a. Outcome.ok (from_addr a)

-- `tokio::io::copy` from the first to the second half of a connection each: how many bytes, or the
-- error that ended it.
pub record Copying (F : Foreign) (I O : Type 0) : Type 0 where
  pub i2o : I → O → Result F.IoError ℕ
  pub o2i : I → O → Result F.IoError ℕ

join_results : {F : Foreign} → Result F.IoError ℕ → Result F.IoError ℕ → Outcome F (Unit {0})
join_results (Result.ok _) (Result.ok _) = Outcome.ok tt
join_results (Result.err e) (Result.ok _) = Outcome.err (from_description (copy_error_first_half e))
join_results (Result.ok _) (Result.err e) =
    Outcome.err (from_description (copy_error_second_half e))
join_results (Result.err _) (Result.err e) =
    Outcome.err (from_description (copy_error_second_half e))

-- The ports are only logged, but a failing lookup of one ends the call before any copying.
unfoldable pub bicopy :
    {F : Foreign} {I O : Type 0}
    → Socket F I
    → Socket F O
    → Copying F I O
    → I
    → O
    → Outcome F (Unit {0})
unfolding l_addr p_addr port join_results
bicopy {F} si so copying incoming outgoing = and_then (p_addr si incoming) λ riport.
    and_then (l_addr so outgoing) λ loport. and_then (l_addr si incoming) λ roport.
      and_then (p_addr so outgoing) λ liport.
        join_results {F = F} (copying.i2o incoming outgoing) (copying.o2i incoming outgoing)
