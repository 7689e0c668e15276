-- ===== src/Pipeline/Orchestrator.antt =====
-- services/event-pipeline/src/consumers/orchestrator.ts: the bound on calls that run at once.
pub mod InFlight
use airport_inspection_platf.Prelude.Map
use airport_inspection_platf.Prelude.{
  Bool, List, Option, String, if◌then◌else◌, leb, none, or_else, some, suc, ℕ, ◌-◌,
}

pub data DispatchOutcome : Type 0 where
  processed errored dropped : DispatchOutcome

pub record ConsumerOrchestrator : Type 0 where
  pub max_concurrency : ℕ
  pub in_flight_by_handler : List (String × ℕ)

unfoldable pub in_flight : String → ConsumerOrchestrator → ℕ
in_flight handler_name o = or_else (Map.get handler_name o.in_flight_by_handler) 0

-- `dispatch` up to the call of the handler: the outcome if the message is dropped, or none
unfoldable pub admit : String → ConsumerOrchestrator → Option DispatchOutcome × ConsumerOrchestrator
unfolding in_flight
admit handler_name o =
    let in_flight_now = in_flight handler_name o in
    if leb o.max_concurrency in_flight_now then (some dropped, o) else (
      none,
      record o {
        in_flight_by_handler = Map.set handler_name (suc in_flight_now) o.in_flight_by_handler;
      },
    )

-- the rest of `dispatch`, once the handler has returned or thrown
unfoldable pub release :
    String → Bool → ConsumerOrchestrator → DispatchOutcome × ConsumerOrchestrator
unfolding in_flight
release handler_name threw o = (
  if threw then errored else processed,
  record o {
    in_flight_by_handler =
        Map.set handler_name (in_flight handler_name o - 1) o.in_flight_by_handler;
  },
)
