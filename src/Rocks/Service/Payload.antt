-- ===== src/Rocks/Service/Payload.antt =====
-- `payload_future` of src/rocks/hyper_svr.rs: the next chunk of a body, with the body.
use rocks.Base.{◌≡◌, ◌↔◌, refl, Option, none, some}
use rocks.Error.{Result}
use rocks.Futures.{Poll}
use rocks.Rocks.Service.{Async, ready, not_ready, failed}

-- `PayloadFuture`: the body, until it is given away.
abbrev pub PayloadFuture : Type 0 → Type 0
PayloadFuture P = Option P

-- The `match` on what the body gives. The body goes with a chunk, and stays at its end.
pub payload_answer :
    {P T E : Type 0} → Async (Option T) E → P → Poll (Result E (Option (P × T))) × PayloadFuture P
payload_answer (ready (some t)) p = (Poll.ready (Result.ok (some (p, t))), none)
payload_answer (ready none) p = (Poll.ready (Result.ok none), some p)
payload_answer not_ready p = (Poll.pending, some p)
payload_answer (failed e) p = (Poll.ready (Result.err e), some p)

-- `PayloadFuture::poll`; `unwrap` panics where the body is gone.
pub poll_payload :
    {P T E : Type 0}
    → (P → Async (Option T) E × P)
    → PayloadFuture P
    → Poll (Result E (Option (P × T))) × PayloadFuture P
unfolding payload_answer
poll_payload poll_data none = (Poll.panic, none)
poll_payload poll_data (some p) = payload_answer (poll_data p).0 (poll_data p).1

answer_none :
    {P T E : Type 0} (a : Async (Option T) E) (p : P)
    → ((payload_answer a p).1 ≡ none)
      ↔ ((t : T) × ((payload_answer a p).0 ≡ Poll.ready (Result.ok (some (p, t)))))
unfolding payload_answer
answer_none (ready (some t)) p = (λ h. (t, refl), λ h. refl)
answer_none (ready none) p = (λ h. cc, λ (t, h). cc)
answer_none not_ready p = (λ h. cc, λ (t, h). cc)
answer_none (failed e) p = (λ h. cc, λ (t, h). cc)

answer_panic :
    {P T E : Type 0} (a : Async (Option T) E) (p : P) → ¬ ((payload_answer a p).0 ≡ Poll.panic)
unfolding payload_answer
answer_panic (ready (some t)) p h = cc
answer_panic (ready none) p h = cc
answer_panic not_ready p h = cc
answer_panic (failed e) p h = cc

poll_payload_panic :
    {P T E : Type 0} (poll_data : P → Async (Option T) E × P) (this : PayloadFuture P)
    → ((poll_payload poll_data this).0 ≡ Poll.panic) ↔ (this ≡ none)
unfolding poll_payload
poll_payload_panic poll_data none = (λ h. refl, λ h. refl)
poll_payload_panic poll_data (some p) =
    (λ h. absurd (answer_panic (poll_data p).0 (poll_data p).1 h), λ h. cc)

-- A second poll after a first panics exactly if the first gave a chunk, and the body with it.
pub poll_payload_again :
    {P T E : Type 0} (poll_data : P → Async (Option T) E × P) (p : P)
    → ((poll_payload poll_data (poll_payload poll_data (some p)).1).0 ≡ Poll.panic) ↔ (
        (t : T) × ((poll_payload poll_data (some p)).0
          ≡ Poll.ready (Result.ok (some ((poll_data p).1, t)))))
unfolding poll_payload
poll_payload_again poll_data p =
    let gone = poll_payload_panic poll_data _ in
    let given = answer_none (poll_data p).0 (poll_data p).1 in
    (λ h. given.0 (gone.0 h), λ h. gone.1 (given.1 h))
