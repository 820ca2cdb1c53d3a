-- ===== src/Relay/Executor/Orders.antt =====
-- How internal/relay/executor.go reads the replies to orders and to modifications of orders.
use degenbox_hyperliquid_cli.Hyperliquid.Types.{OrderStatus, OrderResponse, grouping_na}
use degenbox_hyperliquid_cli.Hyperliquid.Exchange.Replies.{Result-cases}
use degenbox_hyperliquid_cli.Hyperliquid.Exchange.{Transport, Result, ok, err}
use degenbox_hyperliquid_cli.Hyperliquid.Exchange
use degenbox_hyperliquid_cli.Relay.Types.{ExecutionStep}
use degenbox_hyperliquid_cli.Relay.Executor.{
  first_error, place_order_result, execute_place_order, execute_modify_order,
}
use degenbox_hyperliquid_cli.Base.{
  ℕ, ◌+◌, ◌≡◌, refl, ◌↔◌, inl, inr, true, false, Option, none, some, List, [], ◌∷◌, arith,
  if◌then◌else◌, Bool-cases, Option-cases, All, str_eq, eq_iff,
}
use degenbox_hyperliquid_cli.Base.Int.{ℤ}

first_error-none :
    (i : ℕ) (statuses : List OrderStatus)
    → (first_error i statuses ≡ none) ↔ All (λ s. s.error ≡ "") statuses
unfolding first_error
first_error-none i [] = (λ h. tt, λ h. refl)
first_error-none i (s ∷ statuses) = (
  λ h. (
    ground (arith, eq_iff s.error ""),
    (first_error-none (i + 1) statuses).0 (ground (arith, eq_iff s.error "")),
  ),
  λ h. ground (arith, eq_iff s.error "", h.0, (first_error-none (i + 1) statuses).1 h.1),
)

-- What a reply must be for a `place_order` step to count as done: no data, or no order that failed.
abbrev pub NoneFailed : Option OrderResponse → Type 0
NoneFailed none = Unit {0}
NoneFailed (some resp) = All (λ s. s.error ≡ "") resp.statuses

place_order_result-success :
    (step : ExecutionStep) (resp : Option OrderResponse)
    → ((place_order_result step resp).success ≡ true) ↔ NoneFailed resp
unfolding place_order_result
place_order_result-success step none = (λ h. tt, λ h. refl)
place_order_result-success step (some resp) = (
  λ h. (first_error-none 0 resp.statuses).0 (elim (Option-cases (first_error 0 resp.statuses)) [
    | inl fine ↦ fine
    | inr (e, bad) ↦ absurd (ground arith)
  ]),
  λ h. ground (arith, (first_error-none 0 resp.statuses).1 h),
)

module _ (tr : Transport) where
  -- A `place_order` step succeeds exactly when the exchange accepted the request and no order of the
  -- batch has an error of its own.
  pub execute_place_order-success :
      (now last : ℤ) (step : ExecutionStep)
      → ((execute_place_order tr now last step).1.success ≡ true) ↔ (
          (resp : Option OrderResponse) × ((Exchange.place_order tr now last step.orders
              (if str_eq step.grouping "" then grouping_na else step.grouping)).1
            ≡ ok resp)
          × NoneFailed resp)
  unfolding execute_place_order
  execute_place_order-success now last step = (
    λ h.
        elim (Result-cases
          (Exchange.place_order tr now last step.orders
            (if str_eq step.grouping "" then grouping_na else step.grouping)).1) [
              | inl (resp, accepted) ↦
                  (resp, accepted, (place_order_result-success step resp).0 (ground arith))
              | inr (e, refused) ↦ absurd (ground arith)
            ],
    λ w. ground (arith, w.1, (place_order_result-success step w.0).1 w.2),
  )

  -- Where the exchange accepted the request but an order failed, a `modify_order` step still counts as
  -- done, while a `place_order` step with that reply counts as failed.
  pub modify_order_hides_failures :
      (now last : ℤ) (step : ExecutionStep) (resp : OrderResponse)
      → (Exchange.modify_order tr now last step.modifications).1 ≡ ok (some resp)
      → ¬ NoneFailed (some resp)
      → ((execute_modify_order tr now last step).1.success ≡ true)
        × ((place_order_result step (some resp)).success ≡ false)
  unfolding execute_modify_order
  modify_order_hides_failures now last step resp accepted bad = (
    ground (arith, accepted),
    elim (Bool-cases (place_order_result step (some resp)).success) [
      | inl done ↦ absurd (bad ((place_order_result-success step (some resp)).0 done))
      | inr undone ↦ undone
    ],
  )
