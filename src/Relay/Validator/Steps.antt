-- ===== src/Relay/Validator/Steps.antt =====
-- The instructions that internal/relay/validator.go lets through, and what it changes in them.
use degenbox_hyperliquid_cli.Relay.Validator.{
  StepError, validate_steps, validate, validate_step, RiskLimits, AssetResolver, validate_orders,
  validate_place_order, validate_leverage, validate_action,
}
use degenbox_hyperliquid_cli.Base.{
  ◌⊎◌, inr, inl, Option-cases, ap, ℕ, ◌+◌, ◌<◌, ◌≡◌, refl, ◌≢◌, none, some, List, [], ◌∷◌, map,
  arith, length, All, String, eq_iff,
}
use degenbox_hyperliquid_cli.Relay.Types.{
  ExecutionInstruction, action_of, ExecutionStep, Action, update_leverage, place_order,
  cancel_by_cloid, cancel_by_oid, modify_order, unknown_action,
}
use degenbox_hyperliquid_cli.Relay.Validator.Orders.{OrderWithin, validate_order_lem}
use degenbox_hyperliquid_cli.Float.{Float64}
use degenbox_hyperliquid_cli.Hyperliquid.Types.{OrderWire}
use degenbox_hyperliquid_cli.Base.Int.{ℤ, pos, ◌≤ℤ◌}

module _ (fl : Float64) (limits : RiskLimits fl.F) (resolver : AssetResolver) where
  open fl use {F}

  validate_orders-none :
      (j : ℕ) (orders : List OrderWire)
      → validate_orders fl limits resolver j orders ≡ none
      → All (OrderWithin fl limits resolver) orders
  unfolding validate_orders
  validate_orders-none j [] h = tt
  validate_orders-none j (order ∷ orders) h = (
    (validate_order_lem fl limits resolver order).0 (ground arith),
    validate_orders-none (j + 1) orders (ground arith),
  )

  -- What the limits ask of a step, as the checks leave it.
  abbrev pub StepWithin : Action → String → ExecutionStep → Type 0
  StepWithin update_leverage market step =
      (step.leverage ≤ℤ limits.max_leverage)
      × ((max_lev : ℤ)
          → market ≢ ""
          → resolver.get_max_leverage market ≡ some max_lev
          → step.leverage ≤ℤ max_lev)
      × (((max_lev : ℤ) → resolver.get_max_leverage market ≡ some max_lev → pos 1 ≤ℤ max_lev)
          → pos 1 ≤ℤ step.leverage)
  StepWithin place_order market step =
      (0 < length step.orders)
      × (pos (length step.orders) ≤ℤ limits.max_orders_per_step)
      × All (OrderWithin fl limits resolver) step.orders
  StepWithin cancel_by_cloid market step = 0 < length step.cancels
  StepWithin cancel_by_oid market step = 0 < length step.oid_cancels
  StepWithin modify_order market step =
      All (OrderWithin fl limits resolver) (map (λ m. m.order) step.modifications)
  StepWithin unknown_action market step = ⊥

  -- A leverage that passes is positive, where the maximum of the market is.
  validate_leverage-positive :
      (market : String) (step : ExecutionStep)
      → ((max_lev : ℤ) → resolver.get_max_leverage market ≡ some max_lev → pos 1 ≤ℤ max_lev)
      → (validate_leverage fl limits resolver market step).1 ≡ none
      → pos 1 ≤ℤ (validate_leverage fl limits resolver market step).0.leverage
  unfolding validate_leverage
  validate_leverage-positive market step positive h =
      elim (Option-cases (resolver.get_max_leverage market)) [
        | inl unknown ↦ ground arith
        | inr (max_lev, known) ↦ let low = positive max_lev known in ground arith
      ]

  validate_leverage_sound :
      (market : String) (step : ExecutionStep)
      → (validate_leverage fl limits resolver market step).1 ≡ none
      → StepWithin update_leverage market (validate_leverage fl limits resolver market step).0
  unfolding validate_leverage
  validate_leverage_sound market step h = (
    ground arith,
    λ max_lev named known. ground (arith, eq_iff market ""),
    λ positive. validate_leverage-positive market step positive h,
  )

  validate_place_order_sound :
      (market : String) (step : ExecutionStep)
      → validate_place_order fl limits resolver step ≡ none
      → StepWithin place_order market step
  unfolding validate_place_order
  validate_place_order_sound market step h =
      (ground arith, ground arith, validate_orders-none 0 step.orders (ground arith))

  validate_action_sound :
      (action : Action) (market : String) (step : ExecutionStep)
      → (validate_action fl limits resolver action market step).1 ≡ none
      → StepWithin action market (validate_action fl limits resolver action market step).0
  unfolding validate_action
  validate_action_sound update_leverage market step h = validate_leverage_sound market step h
  validate_action_sound place_order market step h = validate_place_order_sound market step h
  validate_action_sound cancel_by_cloid market step h = ground arith
  validate_action_sound cancel_by_oid market step h = ground arith
  validate_action_sound modify_order market step h =
      validate_orders-none 0 (map (λ m. m.order) step.modifications) (ground arith)
  validate_action_sound unknown_action market step h = cc

  -- The checks change nothing but a leverage, which they lower.
  abbrev pub Lowers : ExecutionStep → ExecutionStep → Type 0
  Lowers step step' =
      (step' ≡ record step { leverage = step'.leverage }) × (step'.leverage ≤ℤ step.leverage)

  abbrev pub AllLower : List ExecutionStep → List ExecutionStep → Type 0
  AllLower [] [] = Unit {0}
  AllLower [] (step' ∷ steps') = ⊥
  AllLower (step ∷ steps) [] = ⊥
  AllLower (step ∷ steps) (step' ∷ steps') = Lowers step step' × AllLower steps steps'

  validate_leverage-Lowers :
      (market : String) (step : ExecutionStep)
      → Lowers step (validate_leverage fl limits resolver market step).0
  unfolding validate_leverage
  validate_leverage-Lowers market step = ground arith

  validate_action-Lowers :
      (action : Action) (market : String) (step : ExecutionStep)
      → Lowers step (validate_action fl limits resolver action market step).0
  unfolding validate_action
  validate_action-Lowers update_leverage market step = validate_leverage-Lowers market step
  validate_action-Lowers _ market step = (refl, omega arith)

  abbrev pub StepsWithin : String → List ExecutionStep → Type 0
  StepsWithin market = All (λ step. StepWithin (action_of step.action) market step)

  validate_step_sound :
      (market : String) (step : ExecutionStep)
      → (validate_step fl limits resolver market step).1 ≡ none
      → StepWithin
          (action_of (validate_step fl limits resolver market step).0.action)
          market
          (validate_step fl limits resolver market step).0
  unfolding validate_step
  validate_step_sound market step h =
      let kept : (validate_step fl limits resolver market step).0.action ≡ step.action =
        ap (λ (s : ExecutionStep). s.action)
          (validate_action-Lowers (action_of step.action) market step).0 in
      rw kept (validate_action_sound (action_of step.action) market step h)

  validate_steps_ok :
      (market : String) (i : ℕ) (step : ExecutionStep) (steps : List ExecutionStep)
      → (validate_step fl limits resolver market step).1 ≡ none
      → (validate_steps fl limits resolver market i (step ∷ steps)).0
        ≡ (validate_step fl limits resolver market step).0
          ∷ (validate_steps fl limits resolver market (i + 1) steps).0
  unfolding validate_steps
  validate_steps_ok market i step steps h = ground arith

  validate_steps_bad :
      (market : String) (i : ℕ) (step : ExecutionStep) (steps : List ExecutionStep)
      (e : StepError F)
      → (validate_step fl limits resolver market step).1 ≡ some e
      → (validate_steps fl limits resolver market i (step ∷ steps)).0
        ≡ (validate_step fl limits resolver market step).0 ∷ steps
  unfolding validate_steps
  validate_steps_bad market i step steps e h = ground arith

  validate_steps-none :
      (market : String) (i : ℕ) (step : ExecutionStep) (steps : List ExecutionStep)
      → (validate_steps fl limits resolver market i (step ∷ steps)).1 ≡ none
      → ((validate_step fl limits resolver market step).1 ≡ none)
        × ((validate_steps fl limits resolver market (i + 1) steps).1 ≡ none)
  unfolding validate_steps
  validate_steps-none market i step steps h = ground arith

  validate_steps_sound :
      (market : String) (i : ℕ) (steps : List ExecutionStep)
      → (validate_steps fl limits resolver market i steps).1 ≡ none
      → StepsWithin market (validate_steps fl limits resolver market i steps).0
  unfolding validate_steps
  validate_steps_sound market i [] h = tt
  validate_steps_sound market i (step ∷ steps) h =
      let (fine, later) = validate_steps-none market i step steps h in
      rw (validate_steps_ok market i step steps fine)
        (validate_step_sound market step fine, validate_steps_sound market (i + 1) steps later)

  AllLower-refl : (steps : List ExecutionStep) → AllLower steps steps
  AllLower-refl [] = tt
  AllLower-refl (step ∷ steps) = ((refl, omega arith), AllLower-refl steps)

  validate_steps-AllLower :
      (market : String) (i : ℕ) (steps : List ExecutionStep)
      → AllLower steps (validate_steps fl limits resolver market i steps).0
  unfolding validate_steps validate_step
  validate_steps-AllLower market i [] = tt
  validate_steps-AllLower market i (step ∷ steps) =
      elim (Option-cases (validate_step fl limits resolver market step).1) [
        | inl fine ↦ rw (validate_steps_ok market i step steps fine) (
          validate_action-Lowers (action_of step.action) market step,
          validate_steps-AllLower market (i + 1) steps,
        )
        | inr (e, bad) ↦
            rw (validate_steps_bad market i step steps e bad)
              (validate_action-Lowers (action_of step.action) market step, AllLower-refl steps)
      ]

  validate-none :
      (instr : ExecutionInstruction)
      → (validate fl limits resolver instr).1 ≡ none
      → (0 < length instr.steps)
        × (pos (length instr.steps) ≤ℤ limits.max_steps_per_instr)
        × ((validate_steps fl limits resolver instr.market 0 instr.steps).1 ≡ none)
        × ((validate fl limits resolver instr).0.steps
            ≡ (validate_steps fl limits resolver instr.market 0 instr.steps).0)
  unfolding validate
  validate-none instr h = ground arith

  validate-cases :
      (instr : ExecutionInstruction)
      → ((validate fl limits resolver instr).0 ≡ instr)
        ⊎ ((validate fl limits resolver instr).0 ≡ record instr {
          steps = (validate_steps fl limits resolver instr.market 0 instr.steps).0;
        })
  unfolding validate
  validate-cases instr = ground arith

  -- An instruction that `Validate` lets through has at least one step and no more than the limit, and
  -- every step, as the checks leave it, is within the limits of its action; a leverage is also
  -- positive, unless the market has a maximum that is not.
  pub validate_sound :
      (instr : ExecutionInstruction)
      → (validate fl limits resolver instr).1 ≡ none
      → (0 < length instr.steps)
        × (pos (length instr.steps) ≤ℤ limits.max_steps_per_instr)
        × StepsWithin instr.market (validate fl limits resolver instr).0.steps
  validate_sound instr h =
      let (some_step, few, fine, same) = validate-none instr h in
      (some_step, few, rw same (validate_steps_sound instr.market 0 instr.steps fine))

  -- Whether it is let through or not, `Validate` changes nothing in an instruction but leverages of
  -- its steps, which it only lowers.
  pub validate-AllLower :
      (instr : ExecutionInstruction)
      → ((validate fl limits resolver instr).0
          ≡ record instr { steps = (validate fl limits resolver instr).0.steps })
        × AllLower instr.steps (validate fl limits resolver instr).0.steps
  validate-AllLower instr = elim (validate-cases instr) [
    | inl same ↦ rw same (refl, AllLower-refl instr.steps)
    | inr checked ↦ rw checked (refl, validate_steps-AllLower instr.market 0 instr.steps)
  ]
