-- ===== src/Net.antt =====
-- The part of tokio's `TcpStream` that the proxy calls, as a parameter: the operations, and what
-- tokio documents of them for a connection that has not failed.
use rocks.Base.{ℕ, ◌≤◌, ◌<◌, ◌≡◌, ◌++◌, Bool, true, length, take, drop}
use rocks.Base.Words.{Bytes}
use rocks.Error.{Foreign, Result}

-- `read_exact` fills a buffer of the given size, `write_all` sends a whole buffer.
pub record Tcp (F : Foreign) (S : Type 0) : Type 0 where
  pub read_exact : S → ℕ → Result F.IoError Bytes × S
  pub write_all : S → Bytes → Result F.IoError (Unit {0}) × S

-- `pending` is what the peer sends and has not been read yet, up to the end of its stream; `sent` is
-- what was written. On a healthy connection a read fails only at the end of the stream, and a write
-- does not fail.
pub record TcpLaws {F : Foreign} {S : Type 0} (tcp : Tcp F S) : Type 0 where
  pub pending : S → Bytes
  pub sent : S → Bytes
  pub healthy : S → Bool
  pub read_result :
      (s : S) (n : ℕ)
      → healthy s ≡ true
      → n ≤ length (pending s)
      → (tcp.read_exact s n).0 ≡ Result.ok (take n (pending s))
  pub read_pending :
      (s : S) (n : ℕ)
      → healthy s ≡ true
      → n ≤ length (pending s)
      → pending (tcp.read_exact s n).1 ≡ drop n (pending s)
  pub read_healthy :
      (s : S) (n : ℕ)
      → healthy s ≡ true
      → n ≤ length (pending s)
      → healthy (tcp.read_exact s n).1 ≡ true
  pub read_eof :
      (s : S) (n : ℕ)
      → healthy s ≡ true
      → length (pending s) < n
      → (e : F.IoError) × ((tcp.read_exact s n).0 ≡ Result.err e)
  pub read_sent : (s : S) (n : ℕ) → sent (tcp.read_exact s n).1 ≡ sent s
  pub write_result : (s : S) (bs : Bytes) → healthy s ≡ true → (tcp.write_all s bs).0 ≡ Result.ok tt
  pub write_sent :
      (s : S) (bs : Bytes) → healthy s ≡ true → sent (tcp.write_all s bs).1 ≡ sent s ++ bs
  pub write_pending : (s : S) (bs : Bytes) → pending (tcp.write_all s bs).1 ≡ pending s
  pub write_healthy :
      (s : S) (bs : Bytes) → healthy s ≡ true → healthy (tcp.write_all s bs).1 ≡ true
