-- ===== src/Websocket/Answers.antt =====
-- What an authorized client of a websocket is answered.
use rocks.Base.{ℕ, ◌≡◌, refl, ◌∙◌, List, [], ◌∷◌, ◌++◌}
use rocks.Base.Words.{Bytes}
use rocks.Addr.{ReqAddr}
use rocks.Error.{Result}
use rocks.Socks5.{Socks5Error, error_code}
use rocks.Websocket.{
  Calls, Event, accepted, received, copied, connected, sent, Traced, WebError, resolver_error,
  map_my_err, copy_to, give_up, answer, serve_known, serve_request, serve_message, serve_client,
  serve_upgrade, serve_websocket,
}
use rocks.Websocket.Access.{Authorized}
use rocks.Websocket.Asked.{offers_iff}

module _ {X Y U C S UserId : Type 0} (calls : Calls X Y U C S UserId) where
  -- What a part of the code ends with, where this was done before.
  after : {A : Type 0} → List Event → Traced X Y A → Traced X Y A
  after before m = (m.0, before ++ m.1)

  serve_known_self :
      (id : UserId) (d : Dec (id ≡ id)) (a : ReqAddr) (client : C)
      → serve_known calls d a client
        ≡ after (connected a ∷ []) (answer calls (calls.connect_tcpstream a) client)
  unfolding serve_known after
  serve_known_self id (no ne) a client = absurd (ne refl)
  serve_known_self id (yes _) a client = refl

  serve_authorized :
      (upgrade : Result X (U × ReqAddr × ReqAddr)) (user : Bytes) {to : ReqAddr}
      → (h : Authorized calls upgrade user to)
      → serve_websocket calls upgrade user
        ≡ after
            (accepted ∷ received ∷ connected to ∷ [])
            (answer calls (calls.connect_tcpstream to) h.client)
  unfolding serve_websocket serve_upgrade serve_client serve_message serve_request after
  serve_authorized upgrade user {to = to} h =
      rw
        (
          h.upgraded,
          h.user_read,
          (offers_iff (calls.protocols h.offer)).1 h.offered,
          h.has_accepted,
          h.first,
          h.decoded,
          serve_known_self h.enabled_user (calls.same_user h.enabled_user h.enabled_user) to
              h.client,
        )
        refl

  -- The byte that says how the connection went, the end of the call, and what is done before it.
  abbrev pub reply : Result (Socks5Error × Y) S → ℕ
  reply (Result.ok s) = 0
  reply (Result.err (r, e)) = error_code r

  abbrev pub ending : Result (Socks5Error × Y) S → C → Result (WebError X Y) (Unit {0})
  ending (Result.ok s) client = map_my_err "ws copy" (calls.copy client s)
  ending (Result.err (r, e)) client = Result.err (resolver_error e)

  abbrev pub copying : Result (Socks5Error × Y) S → List Event
  copying (Result.ok s) = copied ∷ []
  copying (Result.err e) = []

  answer_lem :
      (r : Result (Socks5Error × Y) S) (client after_send : C)
      → calls.send (reply r ∷ []) client ≡ Result.ok after_send
      → answer calls r client ≡ (ending r after_send, sent (reply r ∷ []) ∷ copying r)
  unfolding answer copy_to give_up error_code
  answer_lem (Result.ok s) client c can_send = rw can_send refl
  answer_lem (Result.err (r, e)) client c can_send = rw can_send refl

  -- An authorized client, to which the answer can be sent, gets one byte once the connection is tried:
  -- 0 if it is made, and then bytes are copied, whose end is that of the call, and else the code of
  -- the resolver's reason, and then the call ends with the resolver's error.
  pub serve_websocket_answers :
      (upgrade : Result X (U × ReqAddr × ReqAddr)) (user : Bytes) (to : ReqAddr)
      (h : Authorized calls upgrade user to) (r : Result (Socks5Error × Y) S) (c : C)
      → calls.connect_tcpstream to ≡ r
      → calls.send (reply r ∷ []) h.client ≡ Result.ok c
      → serve_websocket calls upgrade user
        ≡ (ending r c, accepted ∷ received ∷ connected to ∷ sent (reply r ∷ []) ∷ copying r)
  unfolding after
  serve_websocket_answers upgrade user to h r c made can_send =
      serve_authorized upgrade user h ∙ rw (made, answer_lem r h.client c can_send) refl
