-- ===== src/Socks5/Auth.antt =====
-- `authenticate_client` of src/socks5/incoming.rs.
pub mod Handshake
use rocks.Base.{ℕ, List, [], ◌∷◌, Bool, true, false, ◌||◌, not, replicate, ◌==◌, if◌then◌else◌}
use rocks.Base.Words.{Bytes}
use rocks.Buffer.{at, slice}
use rocks.Net.{Tcp}
use rocks.Error.{
  Foreign, Error, Outcome, Action, ◌>>=◌, ◌>>◌, lift, when, fail, from_description,
  not_socks5_protocol, no_supported_method,
}
use rocks.Socks5.{
  Connected, read_into, write_all, socks5_protocol, socks5_no_auth, socks5_no_acceptable_method,
}

-- `methods.contains(&m)`
unfoldable pub contains : Bytes → ℕ → Bool
contains [] m = false
contains (x ∷ xs) m = x == m || contains xs m

module _ {F : Foreign} {S : Type 0} (tcp : Tcp F S) where
  unfoldable pub authenticate_client : Action F (Connected S) (Unit {0})
  authenticate_client = do
    buf ← read_into tcp (replicate 256 0) 0 2
    p ← lift (at buf 0)
    when (not (p == socks5_protocol)) (fail (from_description (not_socks5_protocol p)))
    num_auth_methods ← lift (at buf 1)
    buf ← read_into tcp buf 0 num_auth_methods
    methods ← lift (slice buf 0 num_auth_methods)
    when (not (contains methods socks5_no_auth)) (do
      write_all tcp (socks5_protocol ∷ socks5_no_acceptable_method ∷ [])
      fail (from_description no_supported_method))
    write_all tcp (socks5_protocol ∷ socks5_no_auth ∷ [])
