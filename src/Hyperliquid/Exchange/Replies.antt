-- ===== src/Hyperliquid/Exchange/Replies.antt =====
-- What the operations of internal/hyperliquid/client.go make of the replies.
use degenbox_hyperliquid_cli.Hyperliquid.Types.{
  OrderWire, Grouping, OrderResponse, ExchangeResponse,
}
use degenbox_hyperliquid_cli.Hyperliquid.Nonce.{next_nonce}
use degenbox_hyperliquid_cli.Hyperliquid.Exchange.{
  ExchangeAction, order_action, Signature, Result, ok, err, Transport, post_exchange, check_status,
  response_data_of, place_order,
}
use degenbox_hyperliquid_cli.Base.{
  ◌≡◌, refl, ◌↔◌, ◌⊎◌, inl, inr, Option, List, arith, String, eq_iff,
}
use degenbox_hyperliquid_cli.Base.Int.{ℤ}

check_status-ok :
    (resp checked : ExchangeResponse)
    → (check_status resp ≡ ok checked) ↔ ((resp.status ≡ "ok") × (resp ≡ checked))
unfolding check_status
check_status-ok resp checked =
    (λ h. ground (arith, eq_iff resp.status "ok"), λ w. ground (arith, eq_iff resp.status "ok"))

pub Result-cases {ℓ} :
    {A : Type ℓ} (r : Result A) → ((a : A) × (r ≡ ok a)) ⊎ ((e : String) × (r ≡ err e))
Result-cases (ok a) = inl (a, refl)
Result-cases (err e) = inr (e, refl)

post_exchange-ok :
    (tr : Transport) (now last : ℤ) (action : ExchangeAction) (resp : ExchangeResponse)
    → (post_exchange tr now last action).1 ≡ ok resp
    → (sig : Signature) × (tr.sign action (next_nonce now last) ≡ ok sig)
      × (tr.post (record { action = action; nonce = next_nonce now last; signature = sig })
          ≡ ok resp)
unfolding post_exchange
post_exchange-ok tr now last action resp h =
    elim (Result-cases (tr.sign action (next_nonce now last))) [
      | inl (sig, signed) ↦ (sig, signed, ground arith)
      | inr (e, refused) ↦ absurd (ground arith)
    ]

post_exchange_of :
    (tr : Transport) (now last : ℤ) (action : ExchangeAction) (sig : Signature)
    (resp : ExchangeResponse)
    → tr.sign action (next_nonce now last) ≡ ok sig
    → tr.post (record { action = action; nonce = next_nonce now last; signature = sig }) ≡ ok resp
    → (post_exchange tr now last action).1 ≡ ok resp
unfolding post_exchange
post_exchange_of tr now last action sig resp signed posted = rw signed posted

-- Placing orders succeeds exactly when the action is signed and the reply to the request, which
-- carries the nonce drawn for it, has the status "ok"; the result is then the data of that reply.
pub place_order-ok :
    (tr : Transport) (now last : ℤ) (orders : List OrderWire) (grouping : Grouping)
    (result : Option OrderResponse)
    → ((place_order tr now last orders grouping).1 ≡ ok result) ↔ (
        (sig : Signature) × (resp : ExchangeResponse) × (tr.sign
            (order_action orders grouping)
            (next_nonce now last)
          ≡ ok sig)
        × (tr.post (record {
          action = order_action orders grouping;
          nonce = next_nonce now last;
          signature = sig;
        })
            ≡ ok resp)
        × (resp.status ≡ "ok")
        × (response_data_of resp ≡ result))
unfolding place_order
place_order-ok tr now last orders grouping result = (
  λ h.
      let action = order_action orders grouping in
      elim (Result-cases (post_exchange tr now last action).1) [
        | inr (e, refused) ↦ absurd (ground arith)
        | inl (resp, replied) ↦
            let (sig, signed, posted) = post_exchange-ok tr now last action resp replied in
            elim (Result-cases (check_status resp)) [
              | inr (e, refused) ↦ absurd (ground arith)
              | inl (checked, passed) ↦
                  let (fine, same) = (check_status-ok resp checked).0 passed in
                  (sig, resp, signed, posted, fine, ground arith)
            ]
      ],
  λ w. ground (
    arith,
    w.2,
    w.3,
    (check_status-ok w.1 w.1).1 (w.4, refl),
    post_exchange_of tr now last (order_action orders grouping) w.0 w.1 w.2 w.3,
  ),
)
