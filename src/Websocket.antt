-- ===== src/Websocket.antt =====
-- src/wsocket.rs: a client that asks for a connection over a websocket. The websocket and its messages,
-- the ids and the resolver are of other crates, and are parameters. `map_my_err` is not in the repository
-- either: it keeps a value, and an error is told with its text.
pub mod Access
pub mod Asked
pub mod Answers
use Prim.Native.String.{String}
use text.Mathlib.Text.{◌==◌}
use rocks.Base.{ℕ, Bool, true, false, ◌||◌, List, [], ◌∷◌, ◌++◌, Option, none, some, if◌then◌else◌}
use rocks.Base.Words.{Bytes}
use rocks.Addr.{ReqAddr}
use rocks.Error.{Result}
use rocks.Socks5.{Socks5Error, success, error_code}

pub record WebSocketRequest (UserId : Type 0) : Type 0 where
  pub addr : ReqAddr
  pub user : UserId

-- `WebSocketRequest::new`
abbrev pub new : {UserId : Type 0} → ReqAddr → UserId → WebSocketRequest UserId
new addr user = record { addr = addr; user = user }

-- `OwnedMessage`, as far as it is told apart.
pub data OwnedMessage : Type 0 where
  binary : Bytes → OwnedMessage
  other : OwnedMessage

-- `map_my_err` with its text, `Error::new`, and the error that the resolver gives.
pub data WebError (X Y : Type 0) : Type 0 where
  my_error : String → X → WebError X Y
  new_error : String → WebError X Y
  resolver_error : Y → WebError X Y
  upgrade_error : X → WebError X Y

-- What is called, with upgrades of type `U`, clients of type `C` and connections of type `S`.
pub record Calls (X Y U C S UserId : Type 0) : Type 0 where
  pub parse_uuid : Bytes → Result X UserId
  pub same_user : Discrete UserId
  pub protocols : U → List String
  pub reject : U → Result X (Unit {0})
  pub use_protocol : String → U → U
  pub accept : U → Result X C
  pub into_future : C → Result X (Option OwnedMessage × C)
  pub deserialize : Bytes → Result X (WebSocketRequest UserId)
  pub connect_tcpstream : ReqAddr → Result (Socks5Error × Y) S
  pub send : Bytes → C → Result X C
  pub copy : C → S → Result X (Unit {0})

-- What is done, seen from outside: calls that succeed or fail alike.
pub data Event : Type 0 where
  rejected accepted received copied : Event
  connected : ReqAddr → Event
  sent : Bytes → Event

-- How a part of the code ends, with what it has done in order.
abbrev pub Traced : Type 0 → Type 0 → Type 0 → Type 0
Traced X Y A = Result (WebError X Y) A × List Event

abbrev pub resume :
    {X Y A B : Type 0} → Result (WebError X Y) A → List Event → (A → Traced X Y B) → Traced X Y B
resume (Result.ok a) before f = ((f a).0, before ++ (f a).1)
resume (Result.err e) before f = (Result.err e, before)

infixl 5 ◌>>=◌
abbrev pub ◌>>=◌ : {X Y A B : Type 0} → Traced X Y A → (A → Traced X Y B) → Traced X Y B
m >>= f = resume m.0 m.1 f

-- `.map_my_err(text)`
abbrev pub map_my_err : {X Y A : Type 0} → String → Result X A → Result (WebError X Y) A
map_my_err text (Result.ok a) = Result.ok a
map_my_err text (Result.err e) = Result.err (my_error text e)

-- `upgrade.map_err(|e| { error!(..); e })`
abbrev pub upgrade_of : {X Y A : Type 0} → Result X A → Result (WebError X Y) A
upgrade_of (Result.ok a) = Result.ok a
upgrade_of (Result.err e) = Result.err (upgrade_error e)

-- `.iter().any(|s| s == "rust-websocket")`
unfoldable pub offers : List String → Bool
offers [] = false
offers (s ∷ ss) = (s == "rust-websocket") || offers ss

module _ {X Y U C S UserId : Type 0} (calls : Calls X Y U C S UserId) where
  -- What follows the answer that is sent, in either case.
  pub copy_to : S → C → Traced X Y (Unit {0})
  copy_to s client = (map_my_err "ws copy" (calls.copy client s), copied ∷ [])

  pub give_up : Y → C → Traced X Y (Unit {0})
  give_up e client = (Result.err (resolver_error e), [])

  -- The `match` on the connection.
  pub answer : Result (Socks5Error × Y) S → C → Traced X Y (Unit {0})
  unfolding copy_to give_up
  answer (Result.ok s) client =
      let code = error_code success ∷ [] in
      (map_my_err "send back" (calls.send code client), sent code ∷ []) >>= copy_to s
  answer (Result.err (r, e)) client =
      let code = error_code r ∷ [] in
      (map_my_err "ws connect" (calls.send code client), sent code ∷ []) >>= give_up e

  -- After the test of the user.
  pub serve_known : {P : Type 0} → Dec P → ReqAddr → C → Traced X Y (Unit {0})
  unfolding answer
  serve_known (no _) addr client = (Result.err (new_error "User uuid does not match"), [])
  serve_known (yes _) addr client =
      (Result.ok tt, connected addr ∷ []) >>= λ _. answer (calls.connect_tcpstream addr) client

  pub serve_request : UserId → WebSocketRequest UserId → C → Traced X Y (Unit {0})
  unfolding serve_known
  serve_request enabled_user req client =
      serve_known (calls.same_user req.user enabled_user) req.addr client

  -- The `if let` on the first message.
  pub serve_message : UserId → Option OwnedMessage → C → Traced X Y (Unit {0})
  unfolding serve_request
  serve_message enabled_user (some (binary addr)) client = do
    req ← (map_my_err "deserialize" (calls.deserialize addr), [])
    serve_request enabled_user req client
  serve_message enabled_user _ client = (Result.err (new_error "Not processable"), [])

  -- After the client is accepted: its first message.
  pub serve_client : UserId → C → Traced X Y (Unit {0})
  unfolding serve_message
  serve_client enabled_user client = do
    (item, client) ← (map_my_err "into_future" (calls.into_future client), received ∷ [])
    serve_message enabled_user item client

  pub serve_upgrade : UserId → U → Traced X Y (Unit {0})
  unfolding serve_client
  serve_upgrade enabled_user upgrade =
      if offers (calls.protocols upgrade)
      then ((
        map_my_err "ws accept" (calls.accept (calls.use_protocol "rust-websocket" upgrade)),
        accepted ∷ [],
      )
          >>= serve_client enabled_user)
      else (map_my_err "serve_websocket" (calls.reject upgrade), rejected ∷ [])

  -- `serve_websocket`; the addresses that come with the upgrade are only logged.
  unfoldable pub serve_websocket : Result X (U × ReqAddr × ReqAddr) → Bytes → Traced X Y (Unit {0})
  unfolding serve_upgrade
  serve_websocket upgrade user = do
    enabled_user ← (map_my_err "invalid uuid" (calls.parse_uuid user), [])
    (upgrade, laddr, paddr) ← (upgrade_of upgrade, [])
    serve_upgrade enabled_user upgrade
