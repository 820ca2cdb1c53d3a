-- ===== src/Config.antt =====
-- internal/config/config.go: the settings of the bot. Reading and writing the files, and their JSON,
-- are left out; the environment is a function, "" for a variable that is not set.
pub mod Text
pub mod Checks
use degenbox_hyperliquid_cli.Float.{Float64}
use degenbox_hyperliquid_cli.Relay.Validator.{RiskLimits}
use Text.{atoi, is_true, decoded_length}
use degenbox_hyperliquid_cli.Text.{has_prefix, skip}
use degenbox_hyperliquid_cli.Base.{
  ℕ, zero, suc, ◌+◌, ◌-◌, ◌*◌, ◌/◌, ◌%◌, ◌^◌, ◌≤◌, ◌<◌, min, ◌≡◌, refl, sym, ap, ◌∙◌, subst, ◌≢◌,
  ◌↔◌, ◌⊎◌, inl, inr, Bool, true, false, not, ◌&&◌, ◌||◌, Option, none, some, List, [], ◌∷◌, ◌++◌,
  map, append_assoc, append-nil, arith, ltb, leb, ◌==◌, if◌then◌else◌, Bool-cases, Option-cases,
  length, get_elem?, set, get_or, replicate, drop, length-append, length-set, length-replicate,
  length-drop, get_or-set_self, get_or-set_ne, All, All-append, All-mono, All-get_elem?, decimal,
  String, str_eq, eq_iff,
}
use degenbox_hyperliquid_cli.Base.Int.{
  ℤ, pos, negsuc, pos_part, neg_part, sub_ℕ, ltb_ℤ, eqb_ℤ, ◌≤ℤ◌, ◌+ℤ◌, ◌-ℤ◌,
}
use degenbox_hyperliquid_cli.Clock.{second, minute, max_duration, sub, before, add_neg, unix_milli}

-- `CircuitBreaker`.
pub record BreakerConfig : Type 0 where
  pub max_consecutive_losses : ℤ
  pub cooldown_minutes : ℤ

pub record RelayConfig : Type 0 where
  pub server_url : String
  pub api_key : String
  pub client_id : ℤ
  pub server_public_key : String

pub record Config (F : Type 0) : Type 0 where
  pub network : String
  pub private_key : String
  pub wallet_addr : String
  pub is_agent_mode : Bool
  pub relay : RelayConfig
  pub log_level : String
  pub log_format : String
  pub client_name : String
  pub risk_limits : RiskLimits F
  pub circuit_breaker : BreakerConfig
  pub discord_webhook_url : String
  pub ticker_assets : List String

pub data ConfigError : Type 0 where
  no_private_key no_wallet_addr bad_wallet_addr no_max_leverage no_max_order_size : ConfigError
  bad_network : String → ConfigError

pub data Network : Type 0 where
  mainnet testnet : Network

-- A variable, unless it is not set.
unfoldable pub set_text : String → String → String
set_text v old = if str_eq v "" then old else v

-- A variable that `strconv.Atoi` reads, unless it is not set.
unfoldable pub set_int : String → ℤ → ℤ
set_int v old = if str_eq v "" then old else elim (atoi v) [ none ↦ old | some i ↦ i ]

unfoldable pub set_flag : String → Bool → Bool
set_flag v old = if str_eq v "" then old else is_true v || str_eq v "1"

-- `isValidHexAddress`: it decodes what follows the prefix.
unfoldable pub is_valid_hex_address : String → Bool
is_valid_hex_address s =
    (has_prefix s "0x" || has_prefix s "0X")
    && elim (decoded_length (skip 2 s)) [ none ↦ false | some bytes ↦ bytes == 20 ]

module _ (fl : Float64) where
  open fl use {F, of_ℤ, le, eq, parse}

  -- `DefaultConfig`.
  unfoldable pub default_config : Config F
  default_config = record {
    network = "testnet";
    private_key = "";
    wallet_addr = "";
    is_agent_mode = false;
    relay = record { server_url = ""; api_key = ""; client_id = pos 0; server_public_key = "" };
    log_level = "info";
    log_format = "pretty";
    client_name = "";
    risk_limits = record {
      max_leverage = pos 0;
      max_order_size_usd = of_ℤ (pos 0);
      max_price_dev_pct = of_ℤ (pos 0);
      max_orders_per_step = pos 0;
      max_steps_per_instr = pos 0;
      max_per_minute = pos 0;
      max_total_exposure_usd = of_ℤ (pos 0);
      max_positions_per_market = pos 0;
    };
    circuit_breaker = record { max_consecutive_losses = pos 0; cooldown_minutes = pos 0 };
    discord_webhook_url = "";
    ticker_assets = [];
  }

  unfoldable pub set_float : String → F → F
  set_float v old = if str_eq v "" then old else if (parse v).1 then (parse v).0 else old

  -- `LoadFromEnv`.
  unfoldable pub load_from_env : (String → String) → Config F → Config F
  load_from_env env cfg = record cfg {
    network = set_text (env "HL_NETWORK") cfg.network;
    private_key = set_text (env "HL_PRIVATE_KEY") cfg.private_key;
    wallet_addr = set_text (env "HL_WALLET_ADDR") cfg.wallet_addr;
    is_agent_mode = set_flag (env "HL_AGENT_MODE") cfg.is_agent_mode;
    log_level = set_text (env "HL_LOG_LEVEL") cfg.log_level;
    log_format = set_text (env "HL_LOG_FORMAT") cfg.log_format;
    client_name = set_text (env "HL_CLIENT_NAME") cfg.client_name;
    relay = record {
      server_url = set_text (env "HL_RELAY_URL") cfg.relay.server_url;
      api_key = set_text (env "HL_RELAY_API_KEY") cfg.relay.api_key;
      client_id = set_int (env "HL_RELAY_CLIENT_ID") cfg.relay.client_id;
      server_public_key = set_text (env "HL_SERVER_PUBLIC_KEY") cfg.relay.server_public_key;
    };
    risk_limits = record cfg.risk_limits {
      max_leverage = set_int (env "HL_MAX_LEVERAGE") cfg.risk_limits.max_leverage;
      max_order_size_usd =
          set_float (env "HL_MAX_ORDER_SIZE_USD") cfg.risk_limits.max_order_size_usd;
    };
  }

  -- `RiskLimits.Validate`.
  unfoldable pub validate_limits : RiskLimits F → Option ConfigError
  validate_limits r =
      if not (ltb_ℤ (pos 0) r.max_leverage)
      then some no_max_leverage
      else if le r.max_order_size_usd (of_ℤ (pos 0))
      then some no_max_order_size
      else none

  -- `Config.Validate`.
  unfoldable pub validate_config : Config F → Option ConfigError
  validate_config c =
      if str_eq c.private_key ""
      then some no_private_key
      else if not (str_eq c.network "mainnet") && not (str_eq c.network "testnet")
      then some (bad_network c.network)
      else if c.is_agent_mode && str_eq c.wallet_addr ""
      then some no_wallet_addr
      else if not (str_eq c.wallet_addr "") && not (is_valid_hex_address c.wallet_addr)
      then some bad_wallet_addr
      else validate_limits c.risk_limits

  -- `ApplyDefaults`.
  unfoldable pub apply_defaults : RiskLimits F → RiskLimits F
  apply_defaults r = record r {
    max_price_dev_pct =
        if eq r.max_price_dev_pct (of_ℤ (pos 0)) then of_ℤ (pos 5) else r.max_price_dev_pct;
    max_orders_per_step =
        if eqb_ℤ r.max_orders_per_step (pos 0) then pos 10 else r.max_orders_per_step;
    max_steps_per_instr =
        if eqb_ℤ r.max_steps_per_instr (pos 0) then pos 8 else r.max_steps_per_instr;
    max_per_minute = if eqb_ℤ r.max_per_minute (pos 0) then pos 30 else r.max_per_minute;
  }

  -- `GetNetwork`.
  unfoldable pub get_network : Config F → Network
  get_network c = if str_eq c.network "mainnet" then mainnet else testnet

  -- What `SaveToFile` writes.
  unfoldable pub saved : Config F → Config F
  saved c = record c { private_key = ""; relay = record c.relay { api_key = "" } }

  -- `ResolveClientName`, with the last element of the working directory, where there is one.
  unfoldable pub resolve_client_name : Config F → Option String → String
  resolve_client_name cfg base =
      if not (str_eq cfg.client_name "") then cfg.client_name else elim base [
        | none ↦ "DegenBox"
        | some name ↦ if str_eq name "." || str_eq name "/" then "DegenBox" else name
      ]
