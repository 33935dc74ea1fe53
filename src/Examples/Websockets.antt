-- ===== src/Examples/Websockets.antt =====
-- A websocket client of user 1 that asks for a connection to the server, by a message that is this
-- user's number.
use Prim.Native.String.{String}
use native.Mathlib.Decide.{ℕ_discrete}
use rocks.Base.{ℕ, suc, ◌≡◌, ◌↔◌, refl, List, [], ◌∷◌, some, inl, inr}
use rocks.Base.Words.{Bytes}
use rocks.Addr.{ReqAddr, from_addr}
use rocks.Error.{Result}
use rocks.Socks5.{host_unreachable, error_code}
use rocks.Websocket.{
  WebSocketRequest, new, binary, Calls, resolver_error, accepted, received, connected, sent,
  serve_websocket,
}
use rocks.Websocket.Asked.{asked, AtMostOne}
use rocks.Websocket.Access.{Authorized, serve_websocket_access}
use rocks.Websocket.Answers.{serve_websocket_answers}
use rocks.Examples.Memory.{server}

abbrev target : ReqAddr
target = from_addr server

abbrev user_of : Bytes → Result ℕ ℕ
user_of [] = Result.err 0
user_of (b ∷ bs) = Result.ok b

abbrev request_of : Bytes → Result ℕ (WebSocketRequest ℕ)
request_of [] = Result.err 0
request_of (b ∷ bs) = Result.ok (new target b)

-- Clients are numbers, and the connection fails.
abbrev calls : Calls ℕ ℕ (List String) ℕ ℕ ℕ
calls = record {
  parse_uuid = user_of;
  same_user = ℕ_discrete;
  protocols = λ u. u;
  reject = λ u. Result.ok tt;
  use_protocol = λ p u. u;
  accept = λ u. Result.ok 5;
  into_future = λ c. Result.ok (some (binary (1 ∷ [])), suc c);
  deserialize = request_of;
  connect_tcpstream = λ a. Result.err (host_unreachable, 3);
  send = λ bs c. Result.ok (suc c);
  copy = λ c s. Result.ok tt;
}

abbrev upgrade : Result ℕ (List String × ReqAddr × ReqAddr)
upgrade = Result.ok ("chat" ∷ "rust-websocket" ∷ [], target, target)

abbrev authorized : Authorized calls upgrade (1 ∷ []) target
authorized = record {
  enabled_user = 1;
  offer = "chat" ∷ "rust-websocket" ∷ [];
  laddr = target;
  paddr = target;
  fresh = 5;
  client = 6;
  message = 1 ∷ [];
  user_read = refl;
  upgraded = refl;
  offered = inr (inl refl);
  has_accepted = refl;
  first = refl;
  decoded = refl;
}

serve_websocket_access_example :
    AtMostOne (asked (serve_websocket calls upgrade (1 ∷ [])).1)
    × ((to : ReqAddr)
        → (asked (serve_websocket calls upgrade (1 ∷ [])).1 ≡ to ∷ [])
          ↔ Authorized calls upgrade (1 ∷ []) to)
serve_websocket_access_example = serve_websocket_access calls upgrade (1 ∷ [])

serve_websocket_answers_example :
    serve_websocket calls upgrade (1 ∷ [])
    ≡ (Result.err (resolver_error 3), accepted ∷ received ∷ connected target ∷ sent (4 ∷ []) ∷ [])
unfolding error_code
serve_websocket_answers_example =
    serve_websocket_answers calls upgrade (1 ∷ []) target authorized
      (Result.err (host_unreachable, 3)) 7 refl refl
