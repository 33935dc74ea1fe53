-- ===== src/Websocket/Access.antt =====
-- Which clients of a websocket a connection is made for.
use rocks.Base.{
  ◌≡◌, ◌↔◌, ◌⊎◌, inl, inr, refl, ap, ◌∙◌, Bool, true, false, [], ◌∷◌, Option, none, some,
}
use rocks.Base.Words.{Bytes}
use rocks.Addr.{ReqAddr}
use rocks.Error.{Result}
use rocks.Socks5.{Socks5Error, success, error_code}
use rocks.Websocket.{
  new, OwnedMessage, binary, other, Calls, accepted, received, sent, Traced, upgrade_error, offers,
  copy_to, give_up, answer, serve_known, serve_request, serve_message, serve_client, serve_upgrade,
  serve_websocket,
}
use rocks.Websocket.Asked.{
  asked, AtMostOne, Listed, offers_iff, asked-resume, resume_asks, AtMostOne-resume, if_asks,
}

module _ {X Y U C S UserId : Type 0} (calls : Calls X Y U C S UserId) where
  -- A client that may connect to `to`: the user of the program is an id, the upgrade succeeds and
  -- offers the protocol, and the first message is binary and a request of this user for `to`.
  pub record Authorized (upgrade : Result X (U × ReqAddr × ReqAddr)) (user : Bytes) (to : ReqAddr)
      : Type 0 where
    pub enabled_user : UserId
    pub offer : U
    pub laddr : ReqAddr
    pub paddr : ReqAddr
    pub fresh : C
    pub client : C
    pub message : Bytes
    pub user_read : calls.parse_uuid user ≡ Result.ok enabled_user
    pub upgraded : upgrade ≡ Result.ok (offer, laddr, paddr)
    pub offered : Listed "rust-websocket" (calls.protocols offer)
    pub has_accepted : calls.accept (calls.use_protocol "rust-websocket" offer) ≡ Result.ok fresh
    pub first : calls.into_future fresh ≡ Result.ok (some (binary message), client)
    pub decoded : calls.deserialize message ≡ Result.ok (new to enabled_user)

  asked-answer :
      (r : Result (Socks5Error × Y) S) (client : C) → asked (answer calls r client).1 ≡ []
  unfolding answer copy_to give_up
  asked-answer (Result.ok s) client =
      let code = error_code success ∷ [] in
      asked-resume "send back" (calls.send code client) (sent code ∷ []) (copy_to calls s) refl
        (λ c. refl)
  asked-answer (Result.err (r, e)) client =
      let code = error_code r ∷ [] in
      asked-resume "ws connect" (calls.send code client) (sent code ∷ []) (give_up calls e) refl
        (λ c. refl)

  known_asks :
      {P : Type 0} (d : Dec P) (a : ReqAddr) (client : C) {to : ReqAddr}
      → asked (serve_known calls d a client).1 ≡ to ∷ []
      → P × (a ≡ to)
  unfolding serve_known
  known_asks (no _) a client h = cc
  known_asks (yes p) a client h = (p, cc)

  asked-known :
      {P : Type 0} (d : Dec P) (a : ReqAddr) (client : C)
      → (asked (serve_known calls d a client).1 ≡ [])
        ⊎ (asked (serve_known calls d a client).1 ≡ a ∷ [])
  unfolding serve_known
  asked-known (no _) a client = inl refl
  asked-known (yes p) a client =
      inr (ap (λ l. a ∷ l) (asked-answer (calls.connect_tcpstream a) client))

  message_asks :
      (id : UserId) (o : Option OwnedMessage) (client : C) {to : ReqAddr}
      → asked (serve_message calls id o client).1 ≡ to ∷ []
      → (m : Bytes) × (o ≡ some (binary m)) × (calls.deserialize m ≡ Result.ok (new to id))
  unfolding serve_message serve_request
  message_asks id (some (binary m)) client h =
      let (req, decoded, asks) =
        resume_asks "deserialize" (calls.deserialize m) []
          (λ req. serve_request calls id req client) refl h in
      let (same, to_addr) = known_asks (calls.same_user req.user id) req.addr client asks in
      (m, refl, decoded ∙ (λ i. Result.ok (record { addr = to_addr i; user = same i })))
  message_asks id (some other) client h = cc
  message_asks id none client h = cc

  upgrade_asks :
      (id : UserId) (u : U) {to : ReqAddr}
      → asked (serve_upgrade calls id u).1 ≡ to ∷ []
      → (c : C) × (client : C) × (m : Bytes) × Listed "rust-websocket" (calls.protocols u)
        × (calls.accept (calls.use_protocol "rust-websocket" u) ≡ Result.ok c)
        × (calls.into_future c ≡ Result.ok (some (binary m), client))
        × (calls.deserialize m ≡ Result.ok (new to id))
  unfolding serve_upgrade
  upgrade_asks id u h =
      let (listed, asks) = if_asks (offers (calls.protocols u)) _ _ refl h in
      let (c, has_accepted, asks) =
        resume_asks "ws accept" (calls.accept (calls.use_protocol "rust-websocket" u))
          (accepted ∷ []) (serve_client calls id) refl asks in
      let ((item, client), first, asks) =
        resume_asks "into_future" (calls.into_future c) (received ∷ [])
          (λ (item, client). serve_message calls id item client) refl asks in
      let (m, is_binary, decoded) = message_asks id item client asks in
      (
        c,
        client,
        m,
        (offers_iff (calls.protocols u)).0 listed,
        has_accepted,
        first ∙ ap (λ o. Result.ok (o, client)) is_binary,
        decoded,
      )

  forward :
      (upgrade : Result X (U × ReqAddr × ReqAddr)) (user : Bytes) {to : ReqAddr}
      → asked (serve_websocket calls upgrade user).1 ≡ to ∷ []
      → Authorized upgrade user to
  unfolding serve_websocket
  forward (Result.ok (offer, laddr, paddr)) user h =
      let (id, user_read, asks) =
        resume_asks "invalid uuid" (calls.parse_uuid user) [] (λ id. serve_upgrade calls id offer)
          refl h in
      let (c, client, m, listed, has_accepted, first, decoded) = upgrade_asks id offer asks in
      record {
        enabled_user = id;
        offer = offer;
        laddr = laddr;
        paddr = paddr;
        fresh = c;
        client = client;
        message = m;
        user_read = user_read;
        upgraded = refl;
        offered = listed;
        has_accepted = has_accepted;
        first = first;
        decoded = decoded;
      }
  forward (Result.err e) user h =
      let quiet =
        asked-resume "invalid uuid" (calls.parse_uuid user) []
          (λ id. let failed : Traced X Y (Unit {0}) = (Result.err (upgrade_error e), []) in failed)
          refl (λ id. refl) in
      cc

  known_self :
      (id : UserId) (d : Dec (id ≡ id)) (a : ReqAddr) (client : C)
      → asked (serve_known calls d a client).1 ≡ a ∷ []
  unfolding serve_known
  known_self id (no ne) a client = absurd (ne refl)
  known_self id (yes _) a client = ap (λ l. a ∷ l) (asked-answer (calls.connect_tcpstream a) client)

  backward :
      (upgrade : Result X (U × ReqAddr × ReqAddr)) (user : Bytes) {to : ReqAddr}
      → Authorized upgrade user to
      → asked (serve_websocket calls upgrade user).1 ≡ to ∷ []
  unfolding serve_websocket serve_upgrade serve_client serve_message serve_request
  backward upgrade user {to = to} h =
      rw
        (
          h.upgraded,
          h.user_read,
          (offers_iff (calls.protocols h.offer)).1 h.offered,
          h.has_accepted,
          h.first,
          h.decoded,
        )
        (known_self h.enabled_user (calls.same_user h.enabled_user h.enabled_user) to h.client)

  known-AtMostOne :
      {P : Type 0} (d : Dec P) (a : ReqAddr) (client : C)
      → AtMostOne (asked (serve_known calls d a client).1)
  unfolding serve_known
  known-AtMostOne (no _) a client = inl refl
  known-AtMostOne (yes _) a client =
      inr (a, ap (λ l. a ∷ l) (asked-answer (calls.connect_tcpstream a) client))

  message-AtMostOne :
      (id : UserId) (o : Option OwnedMessage) (client : C)
      → AtMostOne (asked (serve_message calls id o client).1)
  unfolding serve_message serve_request
  message-AtMostOne id (some (binary m)) client =
      AtMostOne-resume "deserialize" (calls.deserialize m) []
        (λ req. serve_request calls id req client) refl
        (λ req. known-AtMostOne (calls.same_user req.user id) req.addr client)
  message-AtMostOne id (some other) client = inl refl
  message-AtMostOne id none client = inl refl

  upgrade-AtMostOne :
      (id : UserId) (u : U) (b : Bool)
      → offers (calls.protocols u) ≡ b
      → AtMostOne (asked (serve_upgrade calls id u).1)
  unfolding serve_upgrade serve_client
  upgrade-AtMostOne id u true h = rw h (
      AtMostOne-resume "ws accept" (calls.accept (calls.use_protocol "rust-websocket" u))
        (accepted ∷ []) (serve_client calls id) refl
        (λ c.
          AtMostOne-resume "into_future" (calls.into_future c) (received ∷ [])
            (λ (item, client). serve_message calls id item client) refl
            (λ (item, client). message-AtMostOne id item client)))
  upgrade-AtMostOne id u false h = rw h (inl refl)

  websocket-AtMostOne :
      (upgrade : Result X (U × ReqAddr × ReqAddr)) (user : Bytes)
      → AtMostOne (asked (serve_websocket calls upgrade user).1)
  unfolding serve_websocket
  websocket-AtMostOne (Result.ok (offer, laddr, paddr)) user =
      AtMostOne-resume "invalid uuid" (calls.parse_uuid user) []
        (λ id. serve_upgrade calls id offer) refl (λ id. upgrade-AtMostOne id offer _ refl)
  websocket-AtMostOne (Result.err e) user =
      AtMostOne-resume "invalid uuid" (calls.parse_uuid user) []
        (λ id. let failed : Traced X Y (Unit {0}) = (Result.err (upgrade_error e), []) in failed)
        refl (λ id. inl refl)

  -- A client makes the program ask for at most one connection, and for one to an address exactly if
  -- the program's user is an id, the upgrade succeeds and offers the protocol "rust-websocket", and
  -- the client's first message is binary and a request of this very user for that address.
  pub serve_websocket_access :
      (upgrade : Result X (U × ReqAddr × ReqAddr)) (user : Bytes)
      → AtMostOne (asked (serve_websocket calls upgrade user).1)
        × ((to : ReqAddr)
            → (asked (serve_websocket calls upgrade user).1 ≡ to ∷ []) ↔ Authorized upgrade user to)
  serve_websocket_access upgrade user =
      (websocket-AtMostOne upgrade user, λ to. (forward upgrade user, backward upgrade user))
