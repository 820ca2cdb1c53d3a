-- ===== src/Hyperliquid/Types.antt =====
-- internal/hyperliquid/types.go and info.go: the wire types of the exchange. A Go pointer that may be
-- nil is an `Option`; an int or int64 is an integer.
use degenbox_hyperliquid_cli.Base.{
  Bool, not, Option, none, some, List, if◌then◌else◌, String, str_eq,
}
use degenbox_hyperliquid_cli.Base.Int.{ℤ}

pub record AssetInfo : Type 0 where
  pub name : String
  pub sz_decimals : ℤ
  pub max_leverage : ℤ

pub record AssetCtx : Type 0 where
  pub funding : String
  pub open_interest : String
  pub oracle_px : String
  pub day_ntl_vlm : String
  pub premium : String

pub record LimitSpec : Type 0 where
  pub tif : String

pub record TriggerWire : Type 0 where
  pub is_market : Bool
  pub trigger_px : String
  pub tp_sl : String

pub record OrderType : Type 0 where
  pub limit : Option LimitSpec
  pub trigger : Option TriggerWire

-- `a` asset, `b` is buy, `p` price, `s` size, `r` reduce only, `t` type, `c` client order id.
pub record OrderWire : Type 0 where
  pub a : ℤ
  pub b : Bool
  pub p : String
  pub s : String
  pub r : Bool
  pub t : OrderType
  pub c : String

-- `Grouping` is a string type.
abbrev pub Grouping : Type 0
Grouping = String

abbrev pub grouping_na : Grouping
grouping_na = "na"

pub record CancelSpec : Type 0 where
  pub a : ℤ
  pub o : ℤ

pub record CancelCloidSpec : Type 0 where
  pub asset : ℤ
  pub cloid : String

pub record ModifySpec : Type 0 where
  pub oid : ℤ
  pub order : OrderWire

pub record RestingStatus : Type 0 where
  pub oid : ℤ

pub record FilledStatus : Type 0 where
  pub total_sz : String
  pub avg_px : String
  pub oid : ℤ

pub record OrderStatus : Type 0 where
  pub resting : Option RestingStatus
  pub filled : Option FilledStatus
  pub error : String

pub record OrderResponse : Type 0 where
  pub statuses : List OrderStatus

pub record ExchangeResponseData : Type 0 where
  pub kind : String
  pub response_data : Option OrderResponse
  pub message : String

-- As decoded: `response` and `raw_error` are what `UnmarshalJSON` makes of the field `response`.
pub record ExchangeResponse : Type 0 where
  pub status : String
  pub response : Option ExchangeResponseData
  pub raw_error : String

-- `ErrorMessage`.
unfoldable pub error_message : ExchangeResponse → String
error_message e =
    if not (str_eq e.raw_error "")
    then e.raw_error
    else elim e.response [ none ↦ e.status | some d ↦ d.message ]

pub record MarginSummary : Type 0 where
  pub account_value : String
  pub total_ntl_pos : String
  pub total_raw_usd : String
  pub total_margin_used : String

pub record LeverageInfo : Type 0 where
  pub kind : String
  pub value : ℤ

pub record PositionData : Type 0 where
  pub coin : String
  pub entry_px : String
  pub leverage : LeverageInfo
  pub liquidation_px : String
  pub position_value : String
  pub return_on_equity : String
  pub szi : String
  pub unrealized_pnl : String
  pub margin_used : String

pub record AssetPosition : Type 0 where
  pub position : PositionData
  pub kind : String

pub record ClearinghouseState : Type 0 where
  pub margin_summary : MarginSummary
  pub cross_margin_summary : MarginSummary
  pub asset_positions : List AssetPosition
  pub withdrawable : String

pub record OpenOrder : Type 0 where
  pub coin : String
  pub limit_px : String
  pub oid : ℤ
  pub side : String
  pub sz : String
  pub timestamp : ℤ
