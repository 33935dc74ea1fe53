-- ===== src/Examples/Packets.antt =====
-- A form that asks for a connection, two requests to the hyper server, and a future that is polled on
-- three threads.
use native.Mathlib.Decide.{ℕ_discrete}
use rocks.Base.{ℕ, zero, suc, ◌≡◌, ◌↔◌, refl, Bool, true, false, [], ◌∷◌, Option, none, some}
use rocks.Base.Words.{Bytes}
use rocks.Addr.{from_domain}
use rocks.Error.{Result}
use rocks.Rocks.Packet.{Method, Field, Parsers, RocksPacket, connect_packet, new}
use rocks.Rocks.Packet.Reads.{StandsFor, new_iff}
use rocks.Rocks.Service.{
  Request, Headers, ServeError, Response, not_found, serve_rocks, WrapFuture, Async, not_ready,
  form_length, header_length, parse_text, read_length,
}
use rocks.Rocks.Service.Answers.{Refused, serve_rocks_refuses}
use rocks.Rocks.Service.Thread.{StaysOn, polls_home, polls, given_home}
use rocks.Rocks.Service.Serving.{Failure, poll_serving, rocks_service, call_service}
use rocks.Rocks.Service.Serving.Answered.{AnsweredBy, served_at_home}

abbrev first_byte : Bytes → Result ℕ ℕ
first_byte [] = Result.err 0
first_byte (b ∷ bs) = Result.ok b

abbrev pub parsers : Parsers ℕ ℕ ℕ ℕ
parsers = record { parse_uuid = first_byte; parse_port = first_byte; parse_ip = λ _. Result.err 0 }

abbrev pub form : Field → Option Bytes
form Field.user = some (7 ∷ [])
form Field.host = some (97 ∷ 98 ∷ [])
form Field.port = some (80 ∷ [])
form Field.conn = none

abbrev asked : RocksPacket ℕ ℕ
asked = connect_packet 7 (from_domain (97 ∷ 98 ∷ []) 80) 1

new_iff_example :
    (new parsers Method.other form 1 ≡ Result.ok asked)
    ↔ StandsFor parsers Method.other form 1 asked
new_iff_example = new_iff parsers Method.other form 1 asked

-- Header values that are numbers: 1 is the type of a form, and the others their own lengths.
abbrev values : Headers Bool ℕ ℕ ℕ
values = record {
  uri_equals = λ u _. u;
  equals = λ v _. elim v [ zero ↦ false | suc zero ↦ true | suc (suc _) ↦ false ];
  to_str = λ v. Result.ok (elim v [ zero ↦ "0" | suc _ ↦ "4" ]);
  parse_u64 = λ _. Result.ok 4;
}

abbrev posted : Request Bool ℕ ℕ
posted = record {
  uri = true;
  content_type_header = some 1;
  content_length_header = some 4;
  content_length = some 3;
  chunks = 5 ∷ [];
}

serve_rocks_refuses_example :
    ((e : ServeError ℕ ℕ)
      → ((serve_rocks values posted).0 ≡ Result.err e) ↔ ((true ≡ true) × Refused values posted e))
    × ((r : Response) → (serve_rocks values posted).0 ≡ Result.ok r → r ≡ not_found)
serve_rocks_refuses_example = serve_rocks_refuses values posted

abbrev poll_down : ℕ → Option (Result ℕ ℕ) × ℕ
poll_down zero = (some (Result.ok 9), zero)
poll_down (suc n) = (none, n)

abbrev wrapped : WrapFuture ℕ ℕ
wrapped = record { inner = 1; wakes = 0; home = 2 }

polls_home_example : StaysOn ℕ_discrete poll_down (1 ∷ 2 ∷ 3 ∷ 2 ∷ []) wrapped 2
polls_home_example = polls_home ℕ_discrete poll_down (1 ∷ 2 ∷ 3 ∷ 2 ∷ []) wrapped

-- A body that is not there at its first poll, with the length that its header gives.
abbrev waiting : Request Bool ℕ (Option ℕ)
waiting = record {
  uri = true;
  content_type_header = some 1;
  content_length_header = some 4;
  content_length = some 4;
  chunks = none ∷ some 5 ∷ [];
}

abbrev main_thread : ℕ
main_thread = 2

served_at_home_example :
    ((call_service {D = ℕ} (rocks_service main_thread) waiting).1 ≡ rocks_service main_thread)
    × ((answer : Async Response (Failure ℕ ℕ)) × AnsweredBy values waiting answer
        × (given_home ℕ_discrete main_thread
              (1 ∷ 2 ∷ 3 ∷ 2 ∷ [])
              (polls ℕ_discrete
                (poll_serving values)
                (1 ∷ 2 ∷ 3 ∷ 2 ∷ [])
                (call_service (rocks_service main_thread) waiting).0).0
            ≡ not_ready ∷ answer ∷ []))
unfolding ℕ_discrete form_length header_length parse_text read_length
served_at_home_example =
    served_at_home values ℕ_discrete waiting main_thread (1 ∷ 2 ∷ 3 ∷ 2 ∷ []) refl
