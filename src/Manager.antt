-- ===== src/Manager.antt =====
-- src/client_manager.rs, the traits of src/incoming.rs and src/outgoing.rs that it works over, and
-- the loop of src/main.rs that gives each client to it. What the code only logs is the result here.
pub mod Codes
pub mod Handle
pub mod Session
pub mod Every
use rocks.Base.{ℕ, ◌≡◌, List, [], ◌∷◌}
use rocks.Addr.{SocketAddr, ReqAddr}
use rocks.Config.{IncomingType, IncomingConfig, OutgoingConfig, CfgAddr}
use rocks.Outgoing.{DirectOutgoing, get_outgoing}
use rocks.Error.{
  Foreign, Error, OutgoingError, Outcome, Result, Action, ◌>>=◌, lift, try, io, from_description,
  unsupported_incoming_type, general_failure,
}

-- `IncomingClient` with clients `C` and connections `I`.
pub record IncomingClient (F : Foreign) (C I : Type 0) : Type 0 where
  pub next_request : Action F C ReqAddr
  pub abort : OutgoingError F → ReqAddr → Action F C (Unit {0})
  pub ready_for_connect : ReqAddr → Action F C I

-- `Outgoing` with streams `O`.
pub record Outgoing (F : Foreign) (O : Type 0) : Type 0 where
  pub process_request : ReqAddr → Result (OutgoingError F) O

-- How the handling of a client ends, by the line that is logged.
pub data Report (F : Foreign) : Type 0 where
  served aborted : Report F
  request_error : Error F → Report F
  abort_error : Error F → Report F
  transfer_error : Error F → Report F
  not_ready : Error F → Report F

module _ {F : Foreign} {C I O : Type 0} (client : IncomingClient F C I)
    (copy : I → O → Outcome F (Unit {0})) where
  abort_report : Result (Error F) (Unit {0}) → Report F
  abort_report (Result.ok _) = aborted
  abort_report (Result.err e) = abort_error e

  -- `abort`
  abort : OutgoingError F → ReqAddr → Action F C (Report F)
  unfolding abort_report
  abort e r = do done ← try (client.abort e r); lift (Outcome.ok (abort_report done))

  pub transfer_report : Result (Error F) (Unit {0}) → Report F
  transfer_report (Result.ok _) = served
  transfer_report (Result.err e) = transfer_error e

  pub transfer : Result (Error F) I → O → Action F C (Report F)
  unfolding transfer_report
  transfer (Result.err e) o = lift (Outcome.ok (not_ready e))
  transfer (Result.ok i) o = do
    done ← try (lift (copy i o))
    lift (Outcome.ok (transfer_report done))

  connect_client : Result (OutgoingError F) O → ReqAddr → Action F C (Report F)
  unfolding abort transfer
  connect_client (Result.err e) r = abort e r
  connect_client (Result.ok o) r = do ready ← try (client.ready_for_connect r); transfer ready o

  -- `process_request`
  process_request : Outgoing F O → ReqAddr → Action F C (Report F)
  unfolding connect_client
  process_request o r = connect_client (o.process_request r) r

  choose_outgoing :
      (DirectOutgoing → Outgoing F O)
      → Result (Error F) DirectOutgoing
      → ReqAddr
      → Action F C (Report F)
  unfolding process_request abort
  choose_outgoing impl (Result.ok o) r = process_request (impl o) r
  choose_outgoing impl (Result.err e) r = abort (general_failure e) r

  pub handle_request :
      (DirectOutgoing → Outgoing F O)
      → OutgoingConfig
      → Result (Error F) ReqAddr
      → Action F C (Report F)
  unfolding choose_outgoing get_outgoing
  handle_request impl cfg (Result.err e) = lift (Outcome.ok (request_error e))
  handle_request impl cfg (Result.ok r) = choose_outgoing impl (get_outgoing cfg.outgoing_type) r

  -- `handle_client`; `impl` is the implementation of `Outgoing` for what `get_outgoing` returns.
  unfoldable pub handle_client :
      (DirectOutgoing → Outgoing F O) → OutgoingConfig → Action F C (Report F)
  unfolding handle_request
  handle_client impl cfg = do request ← try client.next_request; handle_request impl cfg request
