-- ===== src/Preread.antt =====
-- `Preread` of src/stream_wrap.rs: bytes that were read before go in front of the next read.
pub mod Order
use rocks.Base.{ℕ, [], ◌++◌}
use rocks.Base.Words.{Bytes}
use rocks.Error.{Result}

-- `read_async` of a stream with a buffer of the given size: the bytes that were put into it.
pub record AsyncRead (E S : Type 0) : Type 0 where
  pub read_async : S → ℕ → Result E Bytes × S

-- `Preread`; `inner` is its `read`.
pub record Preread (S : Type 0) : Type 0 where
  pub preread : Bytes
  pub inner : S

-- `Preread::new`
abbrev pub new : {S : Type 0} → Bytes → S → Preread S
new preread r = record { preread = preread; inner = r }

module _ {E S : Type 0} (stream : AsyncRead E S) where
  -- A failed read leaves the bytes where they are.
  joined : Result E Bytes → S → Preread S → Result E Bytes × Preread S
  joined (Result.ok v) s p = (Result.ok (p.preread ++ v), record { preread = []; inner = s })
  joined (Result.err e) s p = (Result.err e, record p { inner = s })

  -- `Preread::read`
  unfoldable pub read : Preread S → Result E Bytes × Preread S
  unfolding joined
  read p = let (r, s) = stream.read_async p.inner 4096 in joined r s p
