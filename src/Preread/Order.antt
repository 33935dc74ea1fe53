-- ===== src/Preread/Order.antt =====
-- No byte is lost, repeated or moved by reading through a `Preread`.
use rocks.Base.{◌≡◌, refl, ap, List, [], ◌∷◌, ◌++◌}
use rocks.Base.Words.{Bytes}
use rocks.Error.{Result}
use rocks.Preread.{AsyncRead, joined, read}

-- Reads give these chunks one after the other, with failed reads between them.
pub data Gives {E S : Type 0} (f : S → Result E Bytes × S) : S → List Bytes → S → Type 0 where
  nothing : {s : S} → Gives f s [] s
  chunk :
      {s u : S} {v : Bytes} {vs : List Bytes}
      → (f s).0 ≡ Result.ok v
      → Gives f (f s).1 vs u
      → Gives f s (v ∷ vs) u
  failure :
      {s u : S} {e : E} {vs : List Bytes}
      → (f s).0 ≡ Result.err e
      → Gives f (f s).1 vs u
      → Gives f s vs u

module _ {E S : Type 0} (stream : AsyncRead E S) where
  -- A read of the stream itself, as `Preread::read` does it.
  abbrev pub direct : S → Result E Bytes × S
  direct s = stream.read_async s 4096

  read-ok :
      (b : Bytes) (s : S) {v : Bytes}
      → (direct s).0 ≡ Result.ok v
      → read stream (record { preread = b; inner = s })
        ≡ (Result.ok (b ++ v), record { preread = []; inner = (direct s).1 })
  unfolding read joined
  read-ok b s h = rw (h, joined) refl

  read-err :
      (b : Bytes) (s : S) {e : E}
      → (direct s).0 ≡ Result.err e
      → read stream (record { preread = b; inner = s })
        ≡ (Result.err e, record { preread = b; inner = (direct s).1 })
  unfolding read joined
  read-err b s h = rw (h, joined) refl

  Gives-rest :
      {s u : S} {vs : List Bytes}
      → Gives direct s vs u
      → Gives
          (read stream)
          (record { preread = []; inner = s })
          vs
          (record { preread = []; inner = u })
  Gives-rest nothing = nothing
  Gives-rest {s = s} (chunk h more) =
      chunk (ap (λ r. r.0) (read-ok [] s h)) (rw (read-ok [] s h) (Gives-rest more))
  Gives-rest {s = s} (failure h more) =
      failure (ap (λ r. r.0) (read-err [] s h)) (rw (read-err [] s h) (Gives-rest more))

  -- If the stream gives some chunks, the bytes that were read before go in front of the first of
  -- them, and nothing else changes; a read that fails in between takes nothing from them.
  pub read_in_order :
      {s u : S} {v : Bytes} {vs : List Bytes} (b : Bytes)
      → Gives direct s (v ∷ vs) u
      → Gives
          (read stream)
          (record { preread = b; inner = s })
          ((b ++ v) ∷ vs)
          (record { preread = []; inner = u })
  read_in_order {s = s} b (chunk h more) =
      chunk (ap (λ r. r.0) (read-ok b s h)) (rw (read-ok b s h) (Gives-rest more))
  read_in_order {s = s} b (failure h more) =
      failure (ap (λ r. r.0) (read-err b s h)) (rw (read-err b s h) (read_in_order b more))
