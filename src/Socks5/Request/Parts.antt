-- ===== src/Socks5/Request/Parts.antt =====
-- The parts that bytes of a request begin with.
use rocks.Base.{
  ℕ, zero, suc, ◌+◌, ◌*◌, ◌^◌, ◌≤◌, ◌<◌, ◌≡◌, refl, ap, ◌∙◌, [], ◌∷◌, ◌++◌, arith, length,
}
use rocks.Base.Words.{Bytes, IsBytes, high_byte, low_byte}
use rocks.Addr.Parse.{be16}

-- Bytes that begin with a big-endian number of 16 bits, and have so many more behind it.
pub record Word (k : ℕ) (xs : Bytes) : Type 0 where
  pub word : ℕ
  pub after : Bytes
  pub fits : word < 2 ^ 16
  pub begins : xs ≡ be16 word after
  pub are_bytes : IsBytes after
  pub room : k ≤ length after

two_bytes :
    (hi lo : ℕ)
    → hi < 256
    → lo < 256
    → (high_byte (hi * 256 + lo) ≡ hi) × (low_byte (hi * 256 + lo) ≡ lo)
unfolding high_byte low_byte
two_bytes hi lo h l = (omega arith, omega arith)

pub front : (k : ℕ) (xs : Bytes) → suc (suc k) ≤ length xs → IsBytes xs → Word k xs
front k [] enough h = absurd (omega arith)
front k (hi ∷ []) enough h = absurd (omega arith)
front k (hi ∷ lo ∷ xs) enough (h, (l, rest)) =
    let (same_hi, same_lo) = two_bytes hi lo h l in
    record {
      word = hi * 256 + lo;
      after = xs;
      fits = omega arith;
      begins = cc;
      are_bytes = rest;
      room = omega arith;
    }

pub then_word : {k : ℕ} {xs ys : Bytes} (r : Word k xs) → r.after ≡ ys → xs ≡ be16 r.word ys
then_word r e = r.begins ∙ ap (λ zs. be16 r.word zs) e

-- Bytes that begin with a name of a length.
pub record Named (n : ℕ) (xs : Bytes) : Type 0 where
  pub name : Bytes
  pub after : Bytes
  pub begins : xs ≡ name ++ after
  pub is_long : length name ≡ n
  pub are_bytes : IsBytes after
  pub longer : length xs ≡ n + length after

pub name_front : (n : ℕ) (xs : Bytes) → n ≤ length xs → IsBytes xs → Named n xs
name_front zero xs enough h = record {
  name = [];
  after = xs;
  begins = refl;
  is_long = refl;
  are_bytes = h;
  longer = omega arith;
}
name_front (suc n) [] enough h = absurd (omega arith)
name_front (suc n) (x ∷ xs) enough h =
    let r = name_front n xs (omega arith) h.1 in
    record {
      name = x ∷ r.name;
      after = r.after;
      begins = ap (λ ys. x ∷ ys) r.begins;
      is_long = ap suc r.is_long;
      are_bytes = r.are_bytes;
      longer = omega (arith, r.longer);
    }
