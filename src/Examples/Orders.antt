-- ===== src/Examples/Orders.antt =====
-- A concrete exchange, and a concrete state of the client.
use degenbox_hyperliquid_cli.Hyperliquid.Types.{
  OrderWire, ModifySpec, OrderStatus, OrderResponse, ExchangeResponse,
}
use degenbox_hyperliquid_cli.Hyperliquid.Exchange.{
  ExchangeAction, order_action, cancel_action, cancel_by_cloid_action, modify_action,
  update_leverage_action, Signature, Transport, ok,
}
use degenbox_hyperliquid_cli.Relay.Types.{ExecutionStep}
use degenbox_hyperliquid_cli.Relay.State.{ClientState}
use degenbox_hyperliquid_cli.Examples.Validation.{limit_order, blank_step}
use degenbox_hyperliquid_cli.Base.{
  true, false, Option, none, some, [], ◌∷◌, map, if◌then◌else◌, String, str_eq,
}
use degenbox_hyperliquid_cli.Base.Int.{pos}

-- Orders for nothing are refused.
abbrev pub status_of : OrderWire → OrderStatus
status_of o = record {
  resting = none;
  filled = none;
  error = if str_eq o.p "0" then "bad price" else "";
}

abbrev pub reply_to : Option OrderResponse → ExchangeResponse
reply_to orders = record {
  status = "ok";
  response = some (record { kind = "order"; response_data = orders; message = "" });
  raw_error = "";
}

abbrev pub answer : ExchangeAction → ExchangeResponse
answer (order_action orders grouping) = reply_to (some (record { statuses = map status_of orders }))
answer (cancel_action cancels) = reply_to none
answer (cancel_by_cloid_action cancels) = reply_to none
answer (modify_action modifies) =
    reply_to (some (record { statuses = map (λ (m : ModifySpec). status_of m.order) modifies }))
answer (update_leverage_action asset leverage is_cross) = record (reply_to none) { status = "err" }

abbrev pub signature : Signature
signature = record { r = "1"; s = "2"; v = pos 27 }

abbrev pub exchange : Transport
exchange = record {
  sign = λ action nonce. ok signature;
  post = λ request. ok (answer request.action);
}

abbrev pub step_at : String → ExecutionStep
step_at price = record blank_step { action = "place_order"; orders = limit_order price ∷ [] }

abbrev pub modify_step : ExecutionStep
modify_step = record blank_step {
  action = "modify_order";
  modifications = record { oid = pos 7; order = limit_order "0" } ∷ [];
}

abbrev pub client : ClientState
client = record {
  dedup = record { seen = []; max_size = 3; ttl = pos 100 };
  rate_limit = record { limit = 2; timestamps = [] };
  breaker = record {
    max_consecutive = 2;
    cooldown = pos 10;
    consecutive_fails = 0;
    tripped_at = 0;
  };
  sig_failures = [];
  paused = false;
  connected = true;
  has_conn = true;
  conn_closed = false;
  pending_trips = 0;
  exec_queue = [];
  last_nonce = pos 0;
  trades = [];
  sent = [];
}
