-- ===== src/Examples/Answers.antt =====
-- A request for a connection whose answer comes while it waits, over channels that are kept in a table.
use rocks.Base.{
  ℕ, zero, suc, ◌-◌, ◌≡◌, refl, ◌==◌, ==_iff, Bool, true, false, [], ◌∷◌, Option, none, some,
  if◌then◌else◌,
}
use rocks.Base.Words.{Bytes}
use rocks.Addr.{from_domain}
use rocks.Error.{Result}
use rocks.Futures.{Poll}
use rocks.Rocks.Packet.{Method, connect_packet, RocksPacket, new}
use rocks.Rocks.Queue.{
  Channels, Shared, HandlerError, TimeoutError, elapsed, elapsed_text, inner, rocks_handler_impl,
}
use rocks.Rocks.Queue.Timed.{Form, Timeout, reading_form, drive}
use rocks.Rocks.Queue.Timed.Answered.{ChannelLaws, TimeoutLaws, request_answered, request_times_out}
use rocks.Examples.Packets.{parsers, form}
use rocks.Examples.Rounds.{Waiting, segqueue}

-- Channels are numbered, and each holds at most one answer.
pub record Table : Type 0 where
  pub made : ℕ
  pub boxes : ℕ → Option Bytes

abbrev put : ℕ → Option Bytes → (ℕ → Option Bytes) → ℕ → Option Bytes
put i v boxes j = if j == i then v else boxes j

same : (i : ℕ) → (i == i) ≡ true
same i = (==_iff i i).1 refl

put_same : (i : ℕ) (v : Option Bytes) (boxes : ℕ → Option Bytes) → put i v boxes i ≡ v
put_same i v boxes = rw (same i) refl

abbrev table : Channels Table ℕ ℕ Bytes
table = record {
  bounded = λ h. ((h.made, h.made), record { made = suc h.made; boxes = put h.made none h.boxes });
  try_recv = λ r h. (h.boxes r, record h { boxes = put r none h.boxes });
}

abbrev table_laws : ChannelLaws table
table_laws = record {
  waiting = λ h r. h.boxes r;
  waiting-bounded = λ h. put_same h.made none h.boxes;
  received = λ r h. refl;
  stays_empty = λ r h empty. put_same r none h.boxes;
}

abbrev Failure : Type 0
Failure = HandlerError ℕ ℕ ℕ

-- The time is the number of polls that are left.
abbrev timed : Poll (Result Failure Bytes) → ℕ → Poll (Result (TimeoutError ℕ Failure) Bytes)
timed (Poll.ready (Result.ok v)) d = Poll.ready (Result.ok v)
timed (Poll.ready (Result.err e)) d = Poll.ready (Result.err (inner e))
timed Poll.panic d = Poll.panic
timed Poll.pending zero = Poll.ready (Result.err elapsed)
timed Poll.pending (suc d) = Poll.pending

abbrev timeout : Timeout ℕ ℕ Failure Bytes
timeout = record { poll = λ p d. (timed p d, d - 1) }

abbrev is_over : ℕ → Bool
is_over zero = true
is_over (suc d) = false

before_end : (d : ℕ) → is_over d ≡ false → timed Poll.pending d ≡ Poll.pending
before_end zero h = cc
before_end (suc d) h = refl

after_end : (d : ℕ) → is_over d ≡ true → timed Poll.pending d ≡ Poll.ready (Result.err elapsed)
after_end zero h = refl
after_end (suc d) h = cc

abbrev timeout_laws : TimeoutLaws timeout
timeout_laws = record {
  is_elapsed = is_over;
  in_time = before_end;
  too_late = after_end;
  has_value = λ v d. refl;
}

-- A form is there at once.
abbrev at_once : Form → Poll (Result ℕ Form) × Form
at_once f = (Poll.ready (Result.ok f), f)

abbrev idle : Shared Waiting Table
idle = record { queue = []; channels = record { made = 0; boxes = λ i. none } }

abbrev nothing : Shared Waiting Table → Shared Waiting Table
nothing this = this

-- The reader takes what is in the queue.
abbrev emptied : Shared Waiting Table → Shared Waiting Table
emptied this = record this { queue = [] }

-- "ok", on the first channel.
abbrev answer : Shared Waiting Table → Shared Waiting Table
answer this = record this {
  channels = record this.channels { boxes = put 0 (some (111 ∷ 107 ∷ [])) this.channels.boxes };
}

abbrev asked : RocksPacket ℕ ℕ
asked = connect_packet 7 (from_domain (97 ∷ 98 ∷ []) 80) 0

accepts : new parsers Method.other form 0 ≡ Result.ok asked
unfolding new
accepts = refl

request_answered_example :
    (rocks_handler_impl {X = ℕ} parsers segqueue table Method.other (Result.ok form) idle).1.queue
      ≡ asked ∷ []
    × drive parsers segqueue table at_once timeout Method.other
        (nothing ∷ emptied ∷ nothing ∷ answer ∷ [])
        (reading_form form)
        5
        idle
      ≡ some (Result.ok (111 ∷ 107 ∷ []))
request_answered_example =
    request_answered parsers segqueue table at_once timeout table_laws timeout_laws Method.other
      form idle asked accepts form form (emptied ∷ nothing ∷ []) [] answer (111 ∷ 107 ∷ []) 5 refl
      ((λ s. refl), ((λ s. refl), tt)) (λ s. refl) (refl, (refl, (refl, tt)))

request_times_out_example :
    drive parsers segqueue table at_once timeout Method.other
      (nothing ∷ emptied ∷ nothing ∷ nothing ∷ answer ∷ [])
      (reading_form form)
      3
      idle
    ≡ some (Result.err elapsed_text)
request_times_out_example =
    request_times_out parsers segqueue table at_once timeout table_laws timeout_laws Method.other
      form idle asked accepts form form (emptied ∷ nothing ∷ []) (answer ∷ []) nothing 3 refl
      ((λ s. refl), ((λ s. refl), tt)) ((λ s. refl), tt) (refl, (refl, (refl, tt))) refl
