-- ===== src/Relay/Types.antt =====
-- internal/relay/types.go: what the server sends and what the client answers.
use degenbox_hyperliquid_cli.Hyperliquid.Types.{
  OrderWire, CancelSpec, CancelCloidSpec, ModifySpec, OrderResponse,
}
use degenbox_hyperliquid_cli.Base.{ℕ, Bool, Option, List, if◌then◌else◌, String, str_eq}
use degenbox_hyperliquid_cli.Base.Int.{ℤ}

pub record ExecutionStep : Type 0 where
  pub action : String
  pub orders : List OrderWire
  pub grouping : String
  pub cancels : List CancelCloidSpec
  pub oid_cancels : List CancelSpec
  pub asset : ℤ
  pub leverage : ℤ
  pub is_cross : Bool
  pub modifications : List ModifySpec

pub record ExecutionInstruction : Type 0 where
  pub instruction_id : String
  pub signal_id : String
  pub intent_id : String
  pub market : String
  pub steps : List ExecutionStep
  pub signature : String

-- `instructionRelayMsg`: the instruction with the timestamp of its envelope.
pub record InstructionRelayMsg : Type 0 where
  pub timestamp : ℤ
  pub instruction : ExecutionInstruction

pub record StepResult : Type 0 where
  pub action : String
  pub success : Bool
  pub response : Option OrderResponse
  pub error : String

pub record TradeEvent : Type 0 where
  pub time : ℕ
  pub market : String
  pub action : String
  pub success : Bool
  pub error : String
  pub signal_id : String

-- The cases of the switches on `step.Action`, in `validateStep` and in `executeStep`.
pub data Action : Type 0 where
  update_leverage place_order cancel_by_cloid cancel_by_oid modify_order unknown_action : Action

unfoldable pub action_of : String → Action
action_of s =
    if str_eq s "update_leverage"
    then update_leverage
    else if str_eq s "place_order"
    then place_order
    else if str_eq s "cancel_by_cloid"
    then cancel_by_cloid
    else if str_eq s "cancel_by_oid"
    then cancel_by_oid
    else if str_eq s "modify_order"
    then modify_order
    else unknown_action

-- The messages that the client sends, without the timestamps of their envelopes.
pub data OutMsg : Type 0 where
  auth : String → ℤ → String → OutMsg
  ping pong : OutMsg
  instruction_result : String → List StepResult → OutMsg
  client_pause : Bool → OutMsg
  client_log : String → String → List (String × String) → OutMsg
