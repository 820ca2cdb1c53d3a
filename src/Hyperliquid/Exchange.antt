-- ===== src/Hyperliquid/Exchange.antt =====
-- internal/hyperliquid/client.go: the signed requests to the exchange.
-- The signer and the HTTP transport are parameters: a function of what they are given, where the
-- nonce makes every request another one.
pub mod Replies
use Prim.Native.String.{◌++◌ as str_append}
use degenbox_hyperliquid_cli.Hyperliquid.Types.{
  OrderWire, Grouping, CancelSpec, CancelCloidSpec, ModifySpec, OrderResponse, ExchangeResponse,
  ExchangeResponseData, error_message,
}
use degenbox_hyperliquid_cli.Hyperliquid.Nonce.{next_nonce}
use degenbox_hyperliquid_cli.Base.{
  ℕ, zero, suc, ◌+◌, ◌-◌, ◌*◌, ◌/◌, ◌%◌, ◌^◌, ◌≤◌, ◌<◌, min, ◌≡◌, refl, sym, ap, ◌∙◌, subst, ◌≢◌,
  ◌↔◌, ◌⊎◌, inl, inr, Bool, true, false, not, ◌&&◌, ◌||◌, Option, none, some, List, [], ◌∷◌, ◌++◌,
  map, append_assoc, append-nil, arith, ltb, leb, ◌==◌, if◌then◌else◌, Bool-cases, Option-cases,
  length, get_elem?, set, get_or, replicate, drop, length-append, length-set, length-replicate,
  length-drop, get_or-set_self, get_or-set_ne, All, All-append, All-mono, All-get_elem?, String,
  str_eq, eq_iff,
}
use degenbox_hyperliquid_cli.Base.Int.{
  ℤ, pos, negsuc, pos_part, neg_part, sub_ℕ, ltb_ℤ, eqb_ℤ, ◌≤ℤ◌, ◌+ℤ◌, ◌-ℤ◌,
}
use degenbox_hyperliquid_cli.Clock.{second, minute, max_duration, sub, before, add_neg, unix_milli}

-- The `...Action` structs that a request carries.
pub data ExchangeAction : Type 0 where
  order_action : List OrderWire → Grouping → ExchangeAction
  cancel_action : List CancelSpec → ExchangeAction
  cancel_by_cloid_action : List CancelCloidSpec → ExchangeAction
  modify_action : List ModifySpec → ExchangeAction
  update_leverage_action : ℤ → ℤ → Bool → ExchangeAction

pub record Signature : Type 0 where
  pub r : String
  pub s : String
  pub v : ℤ

pub record ExchangeRequest : Type 0 where
  pub action : ExchangeAction
  pub nonce : ℤ
  pub signature : Signature

-- A value or the text of an error.
pub data Result {ℓ} (A : Type ℓ) : Type ℓ where
  ok : A → Result A
  err : String → Result A

infixl 5 ◌>>=◌
abbrev pub ◌>>=◌ {ℓ κ} : {A : Type ℓ} {B : Type κ} → Result A → (A → Result B) → Result B
ok a >>= f = f a
err e >>= f = err e

-- `sign` and `post`, with the decoding of the reply.
pub record Transport : Type 0 where
  pub sign : ExchangeAction → ℤ → Result Signature
  pub post : ExchangeRequest → Result ExchangeResponse

-- `postExchange` at the clock `now`: the new `lastNonce`, and the reply.
unfoldable pub post_exchange : Transport → ℤ → ℤ → ExchangeAction → ℤ × Result ExchangeResponse
post_exchange tr now last action =
    let nonce = next_nonce now last in
    (
      nonce,
      elim (tr.sign action nonce) [
        | err e ↦ err (str_append "failed to sign action: " e)
        | ok sig ↦ tr.post (record { action = action; nonce = nonce; signature = sig })
      ],
    )

-- The check of the status that every operation makes; `APIError.Error` is the text.
unfoldable pub check_status : ExchangeResponse → Result ExchangeResponse
unfolding error_message
check_status resp =
    if str_eq resp.status "ok"
    then ok resp
    else err (str_append "hyperliquid API error: " (error_message resp))

-- The data of a reply, where there is one.
unfoldable pub response_data_of : ExchangeResponse → Option OrderResponse
response_data_of resp = elim resp.response [ none ↦ none | some d ↦ d.response_data ]

-- `PlaceOrder`.
unfoldable pub place_order :
    Transport → ℤ → ℤ → List OrderWire → Grouping → ℤ × Result (Option OrderResponse)
unfolding post_exchange check_status response_data_of
place_order tr now last orders grouping =
    let (last', reply) = post_exchange tr now last (order_action orders grouping) in
    (last', do resp ← reply; checked ← check_status resp; ok (response_data_of checked))

-- `CancelOrder`.
unfoldable pub cancel_order : Transport → ℤ → ℤ → List CancelSpec → ℤ × Result (Unit {0})
unfolding post_exchange check_status
cancel_order tr now last cancels =
    let (last', reply) = post_exchange tr now last (cancel_action cancels) in
    (last', do resp ← reply; checked ← check_status resp; ok tt)

-- `CancelOrderByCloid`.
unfoldable pub cancel_order_by_cloid :
    Transport → ℤ → ℤ → List CancelCloidSpec → ℤ × Result (Unit {0})
unfolding post_exchange check_status
cancel_order_by_cloid tr now last cancels =
    let (last', reply) = post_exchange tr now last (cancel_by_cloid_action cancels) in
    (last', do resp ← reply; checked ← check_status resp; ok tt)

-- `ModifyOrder`.
unfoldable pub modify_order :
    Transport → ℤ → ℤ → List ModifySpec → ℤ × Result (Option OrderResponse)
unfolding post_exchange check_status response_data_of
modify_order tr now last modifies =
    let (last', reply) = post_exchange tr now last (modify_action modifies) in
    (last', do resp ← reply; checked ← check_status resp; ok (response_data_of checked))

-- `UpdateLeverage`.
unfoldable pub update_leverage : Transport → ℤ → ℤ → ℤ → ℤ → Bool → ℤ × Result (Unit {0})
unfolding post_exchange check_status
update_leverage tr now last asset leverage is_cross =
    let (last', reply) =
      post_exchange tr now last (update_leverage_action asset leverage is_cross) in
    (last', do resp ← reply; checked ← check_status resp; ok tt)
