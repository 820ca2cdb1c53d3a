-- ===== src/Relay/Validator/Nan.antt =====
-- What the checks of internal/relay/validator.go do with an order whose price or size reads as NaN.
use degenbox_hyperliquid_cli.Float.{Float64, IsNan, NanPropagates}
use degenbox_hyperliquid_cli.Hyperliquid.Types.{OrderWire}
use degenbox_hyperliquid_cli.Relay.Validator.{
  RiskLimits, AssetResolver, parse_positive, notional_price, deviation, check_deviation,
  check_oracle, validate_order,
}
use degenbox_hyperliquid_cli.Base.{
  ◌≡◌, inl, inr, true, false, none, some, arith, Option-cases, String,
}
use degenbox_hyperliquid_cli.Base.Int.{pos}

module _ (fl : Float64) (limits : RiskLimits fl.F) (resolver : AssetResolver) where
  open fl use {F, of_ℤ, mul, div, sub as fsub, abs, lt, le, parse}

  deviation-IsNan :
      (propagates : NanPropagates fl) (px oracle : F)
      → IsNan fl px
      → IsNan fl (deviation fl limits resolver px oracle)
  unfolding deviation
  deviation-IsNan propagates px oracle nan =
      propagates.mul_left _ _
        (propagates.div_left _ _ (propagates.abs _ (propagates.sub_left _ _ nan)))

  check_oracle_nan :
      (propagates : NanPropagates fl) (market : String) (order : OrderWire) (price : F)
      → order.t.trigger ≡ none
      → IsNan fl price
      → check_oracle fl limits resolver market order price ≡ none
  unfolding check_oracle check_deviation
  check_oracle_nan propagates market order price plain nan =
      elim (Option-cases (resolver.get_oracle_price market)) [
        | inl missing ↦ ground arith
        | inr (text, known) ↦ ground (
          arith,
          (deviation-IsNan propagates price (parse text).0 nan).not_gt limits.max_price_dev_pct,
        )
      ]

  -- A limit order on a known asset whose price reads as NaN is let through, whatever its size, the
  -- limits and the oracle price, if its size reads as a value that is not at or below zero.
  pub nan_price_passes :
      (propagates : NanPropagates fl) (order : OrderWire) (market : String)
      → resolver.get_asset_name order.a ≡ some market
      → order.t.trigger ≡ none
      → (parse order.p).1 ≡ true
      → IsNan fl (parse order.p).0
      → (parse order.s).1 ≡ true
      → le (parse order.s).0 (of_ℤ (pos 0)) ≡ false
      → validate_order fl limits resolver order ≡ none
  unfolding validate_order parse_positive notional_price
  nan_price_passes propagates order market known plain price_ok nan size_ok above = ground (
    arith,
    nan.not_le (of_ℤ (pos 0)),
    (propagates.mul_right (parse order.s).0 (parse order.p).0 nan).not_gt limits.max_order_size_usd,
    check_oracle_nan propagates market order (parse order.p).0 plain nan,
  )
