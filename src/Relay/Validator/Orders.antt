-- ===== src/Relay/Validator/Orders.antt =====
-- The orders that internal/relay/validator.go lets through.
use degenbox_hyperliquid_cli.Float.{Float64}
use degenbox_hyperliquid_cli.Hyperliquid.Types.{OrderWire, TriggerWire}
use degenbox_hyperliquid_cli.Relay.Validator.{
  RiskLimits, AssetResolver, parse_positive, notional_price, deviation, check_deviation,
  check_oracle, validate_order,
}
use degenbox_hyperliquid_cli.Base.{
  ◌≡◌, sym, ◌∙◌, ◌↔◌, inl, inr, true, false, ◌&&◌, Option, none, some, arith, Bool-cases,
  Option-cases, String,
}
use degenbox_hyperliquid_cli.Base.Int.{pos}

module _ (fl : Float64) (limits : RiskLimits fl.F) (resolver : AssetResolver) where
  open fl use {F, of_ℤ, mul, lt, le, parse}

  -- The text is read without error, as a value that is not below or at zero.
  abbrev pub Reads : String → F → Type 0
  Reads text x = ((parse text).1 ≡ true) × ((parse text).0 ≡ x) × (le x (of_ℤ (pos 0)) ≡ false)

  -- Without a trigger the price is held to the limit; with one the trigger price, to twice the limit.
  abbrev pub DeviationWithin : Option TriggerWire → F → F → Type 0
  DeviationWithin none price oracle =
      lt limits.max_price_dev_pct (deviation fl limits resolver price oracle) ≡ false
  DeviationWithin (some trigger) price oracle =
      (px : F) × Reads trigger.trigger_px px
      × (lt (mul limits.max_price_dev_pct (of_ℤ (pos 2))) (deviation fl limits resolver px oracle)
          ≡ false)

  -- What the limits ask of an order.
  pub record OrderWithin (order : OrderWire) : Type 0 where
    pub market : String
    pub price : F
    pub size : F
    pub known : resolver.get_asset_name order.a ≡ some market
    pub price_read : Reads order.p price
    pub size_read : Reads order.s size
    pub notional_within :
        lt limits.max_order_size_usd (mul size (notional_price fl limits resolver order price))
        ≡ false
    pub oracle_within :
        (text : String)
        → resolver.get_oracle_price market ≡ some text
        → (parse text).1 ≡ true
        → lt (of_ℤ (pos 0)) (parse text).0 ≡ true
        → DeviationWithin order.t.trigger price (parse text).0

  parse_positive-some :
      (text : String) (x : F) → parse_positive fl limits resolver text ≡ some x → Reads text x
  unfolding parse_positive
  parse_positive-some text x h = ground arith

  parse_positive_of_Reads :
      (text : String) (x : F) → Reads text x → parse_positive fl limits resolver text ≡ some x
  unfolding parse_positive
  parse_positive_of_Reads text x h = ground arith

  check_deviation-none :
      (trigger : Option TriggerWire) (order : OrderWire) (price : F) (text : String) (oracle : F)
      → (check_deviation fl limits resolver trigger order price text oracle ≡ none)
        ↔ DeviationWithin trigger price oracle
  unfolding check_deviation
  check_deviation-none none order price text oracle = (λ h. ground arith, λ h. ground arith)
  check_deviation-none (some trigger) order price text oracle =
      elim (Option-cases (parse_positive fl limits resolver trigger.trigger_px)) [
        | inl bad ↦ (
          λ h. absurd (ground arith),
          λ w. absurd (ground (arith, parse_positive_of_Reads trigger.trigger_px w.0 w.1)),
        )
        | inr (px, e) ↦ (
          λ h. (px, parse_positive-some trigger.trigger_px px e, ground arith),
          λ w. ground (arith, parse_positive_of_Reads trigger.trigger_px w.0 w.1, w.2),
        )
      ]

  abbrev OracleWithin : String → OrderWire → F → Type 0
  OracleWithin market order price =
      (text : String)
      → resolver.get_oracle_price market ≡ some text
      → (parse text).1 ≡ true
      → lt (of_ℤ (pos 0)) (parse text).0 ≡ true
      → DeviationWithin order.t.trigger price (parse text).0

  check_oracle-none :
      (market : String) (order : OrderWire) (price : F)
      → (check_oracle fl limits resolver market order price ≡ none)
        ↔ OracleWithin market order price
  unfolding check_oracle
  check_oracle-none market order price = (
    λ h text known read above.
        let taken : check_oracle fl limits resolver market order price
            ≡ check_deviation fl limits resolver order.t.trigger order price text (parse text).0 =
          ground arith in
        (check_deviation-none order.t.trigger order price text (parse text).0).0 (sym taken ∙ h),
    λ w. elim (Option-cases (resolver.get_oracle_price market)) [
      | inl missing ↦ ground arith
      | inr (text, known) ↦ elim (Bool-cases ((parse text).1 && lt (of_ℤ (pos 0)) (parse text).0)) [
        | inl positive ↦ ground (
          arith,
          (check_deviation-none order.t.trigger order price text (parse text).0).1
              (w text known (ground arith) (ground arith)),
        )
        | inr skipped ↦ ground arith
      ]
    ],
  )

  validate_order-none :
      (order : OrderWire)
      → validate_order fl limits resolver order ≡ none
      → (market : String) × (price : F) × (size : F) × (resolver.get_asset_name order.a
          ≡ some market)
        × (parse_positive fl limits resolver order.p ≡ some price)
        × (parse_positive fl limits resolver order.s ≡ some size)
        × (lt limits.max_order_size_usd (mul size (notional_price fl limits resolver order price))
            ≡ false)
        × (check_oracle fl limits resolver market order price ≡ none)
  unfolding validate_order
  validate_order-none order h = ground arith

  -- An order passes the checks exactly when the limits hold of it: its asset is known, its price and
  -- size are read and not at or below zero, its notional value is not above the limit, and against
  -- a positive oracle price it does not deviate too far.
  pub validate_order_lem :
      (order : OrderWire) → (validate_order fl limits resolver order ≡ none) ↔ OrderWithin order
  unfolding validate_order
  validate_order_lem order = (
    λ h.
        let (market, price, size, known, p, q, fits, oracle) = validate_order-none order h in
        record {
          market = market;
          price = price;
          size = size;
          known = known;
          price_read = parse_positive-some order.p price p;
          size_read = parse_positive-some order.s size q;
          notional_within = fits;
          oracle_within = (check_oracle-none market order price).0 oracle;
        },
    λ w. ground (
      arith,
      w.known,
      parse_positive_of_Reads order.p w.price w.price_read,
      parse_positive_of_Reads order.s w.size w.size_read,
      w.notional_within,
      (check_oracle-none w.market order w.price).1 w.oracle_within,
    ),
  )
