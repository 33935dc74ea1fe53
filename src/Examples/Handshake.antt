-- ===== src/Examples/Handshake.antt =====
-- The handshake, the replies and the hand-over at concrete inputs.

use rocks.Base.{◌≡◌, refl, [], ◌∷◌, arith, some, replicate}
use rocks.Base.Words.{Bytes, high_byte, low_byte}
use rocks.Addr.{ReqAddr, domain}
use rocks.Error.{Outcome, from_description, no_supported_method}
use rocks.Socks5.{read_into, read_exact, write_all, success, host_unreachable, error_code}
use rocks.Socks5.Auth.{contains, authenticate_client}
use rocks.Socks5.Reply.{final_response}
use rocks.Socks5.Reply.Encode.{final_response_lem}
use rocks.Socks5.Reply.Decode.{decode_reply, decode-final_response}
use rocks.Examples.Memory.{plain, memory_tcp, client_with}

-- "a.bc", port 443
abbrev named : ReqAddr
named = domain (97 ∷ 46 ∷ 98 ∷ 99 ∷ []) 443

decode-final_response_example :
    (bs : Bytes) × (final_response {F = plain} host_unreachable named ≡ Outcome.ok bs)
    × (decode_reply bs ≡ some (error_code host_unreachable, named))
decode-final_response_example =
    decode-final_response host_unreachable named (omega arith) (omega arith)

final_response_lem_example :
    final_response {F = plain} success (domain (replicate 255 97) 80) ≡ Outcome.panic
final_response_lem_example = final_response_lem {F = plain} success (domain (replicate 255 97) 80)

-- What is on the wire for it.
final_response-named :
    final_response {F = plain} success named
    ≡ Outcome.ok (5 ∷ 0 ∷ 0 ∷ 3 ∷ 4 ∷ 97 ∷ 46 ∷ 98 ∷ 99 ∷ 1 ∷ 187 ∷ [])
unfolding final_response high_byte low_byte
final_response-named = refl

authenticate_run :
    (authenticate_client memory_tcp (client_with (5 ∷ 2 ∷ 1 ∷ 2 ∷ []))).0
    ≡ Outcome.err (from_description no_supported_method)
unfolding authenticate_client read_into read_exact contains write_all
authenticate_run = refl
