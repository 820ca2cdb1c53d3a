-- ===== src/Hyperliquid/KillSwitch/Closing.antt =====
-- The orders that `CloseAllPositions` of internal/hyperliquid/client.go sends, and those that
-- `CancelAllOrders` cancels.
use degenbox_hyperliquid_cli.Base.{
  Among, true, Option, none, ap, ℕ, ◌≡◌, refl, ◌↔◌, ◌⊎◌, inl, inr, false, some, List, [], ◌∷◌,
  Option-cases,
}
use degenbox_hyperliquid_cli.Float.{Float64}
use degenbox_hyperliquid_cli.Hyperliquid.Types.{
  CancelSpec, OpenOrder, OrderWire, AssetPosition, OrderResponse,
}
use degenbox_hyperliquid_cli.Hyperliquid.Exchange.{Transport, Result, ok, place_order}
use degenbox_hyperliquid_cli.Hyperliquid.Assets.{Assets, get_asset_id}
use degenbox_hyperliquid_cli.Hyperliquid.KillSwitch.{cancels_of, size_of, oracle_of, decimals_of}
use degenbox_hyperliquid_cli.Base.Int.{ℤ, pos}

-- What sending a list of orders comes to: nothing for none, and one request for more.
abbrev pub send_orders : Transport → ℤ → ℤ → List OrderWire → ℤ × Result (Option OrderResponse)
send_orders tr now last [] = (last, ok none)
send_orders tr now last (o ∷ os) = place_order tr now last (o ∷ os) "na"

module _ (fl : Float64) (t : Assets) where
  open fl use {F, of_ℤ, mul, abs, lt, le, eq, parse, format_f, format_g, c105, c095}

  -- An open position in a known market whose oracle price is not at most 0.
  abbrev pub IsClosable : AssetPosition → ℕ → Type 0
  IsClosable held id =
      (eq (size_of fl held) (of_ℤ (pos 0)) ≡ false)
      × (get_asset_id t held.position.coin ≡ some id)
      × (le (oracle_of fl t held.position.coin) (of_ℤ (pos 0)) ≡ false)

  -- A short position is bought at 1.05 of the oracle price, another sold at 0.95 of it.
  abbrev pub IsPriced : F → F → OrderWire → Type 0
  IsPriced size oracle o =
      ((lt size (of_ℤ (pos 0)) ≡ true) × (o.b ≡ true) × (o.p ≡ format_g (mul oracle c105)))
      ⊎ ((lt size (of_ℤ (pos 0)) ≡ false) × (o.b ≡ false) × (o.p ≡ format_g (mul oracle c095)))

  -- The order closes the position: the whole of it, reduce-only, at once or not at all.
  pub record ClosedBy (held : AssetPosition) (o : OrderWire) : Type 0 where
    pub id : ℕ
    pub closable : IsClosable held id
    pub market : o.a ≡ pos id
    pub priced : IsPriced (parse held.position.szi).0 (oracle_of fl t held.position.coin) o
    pub size :
        o.s ≡ format_f (abs (parse held.position.szi).0) (decimals_of fl t held.position.coin)
    pub reduce_only : o.r ≡ true
    pub limit : o.t.limit ≡ some (record { tif = "Ioc" })
    pub trigger : o.t.trigger ≡ none

  -- The orders close the positions that can be closed, one each, in the same order.
  pub data Closes : List AssetPosition → List OrderWire → Type 0 where
    all_closed : Closes [] []
    closed :
        {held : AssetPosition} {aps : List AssetPosition} {o : OrderWire} {os : List OrderWire}
        → ClosedBy held o
        → Closes aps os
        → Closes (held ∷ aps) (o ∷ os)
    passed :
        {held : AssetPosition} {aps : List AssetPosition} {os : List OrderWire}
        → ((id : ℕ) → ¬ IsClosable held id)
        → Closes aps os
        → Closes (held ∷ aps) os

abbrev cancel_of : ℕ → OpenOrder → CancelSpec
cancel_of id o = record { a = pos id; o = o.oid }

cancels_of-all :
    (t : Assets) (orders : List OpenOrder) (o : OpenOrder) (id : ℕ)
    → Among o orders
    → get_asset_id t o.coin ≡ some id
    → Among (record { a = pos id; o = o.oid }) (cancels_of t orders)
unfolding cancels_of
cancels_of-all t [] o id h known = h
cancels_of-all t (p ∷ orders) o id (inl same) known =
    let known_p = rw same at known in rw (known_p, cancels_of) (inl (ap (cancel_of id) same))
cancels_of-all t (p ∷ orders) o id (inr later) known =
    let found = cancels_of-all t orders o id later known in
    elim (Option-cases (get_asset_id t p.coin)) [
      | inl unknown ↦ rw (unknown, cancels_of) found
      | inr (other, known') ↦ rw (known', cancels_of) (inr found)
    ]

cancels_of-only :
    (t : Assets) (orders : List OpenOrder) (c : CancelSpec)
    → Among c (cancels_of t orders)
    → (o : OpenOrder) × (id : ℕ) × Among o orders
      × (get_asset_id t o.coin ≡ some id)
      × (c ≡ record { a = pos id; o = o.oid })
unfolding cancels_of
cancels_of-only t [] c h = elim h [ ]
cancels_of-only t (p ∷ orders) c h = elim (Option-cases (get_asset_id t p.coin)) [
  | inl unknown ↦
      let (o, id, there, known, same) =
        cancels_of-only t orders c (rw (unknown, cancels_of) at h) in
      (o, id, inr there, known, same)
  | inr (id, known) ↦ elim (rw (known, cancels_of) at h) [
    | inl first ↦ (p, id, inl refl, known, first)
    | inr later ↦
        let (o, id', there, known', same) = cancels_of-only t orders c later in
        (o, id', inr there, known', same)
  ]
]

-- The kill switch cancels exactly the open orders in known markets, each under the id of its market.
pub cancels_of_lem :
    (t : Assets) (orders : List OpenOrder) (c : CancelSpec)
    → Among c (cancels_of t orders) ↔ (
        (o : OpenOrder) × (id : ℕ) × Among o orders
        × (get_asset_id t o.coin ≡ some id)
        × (c ≡ record { a = pos id; o = o.oid }))
cancels_of_lem t orders c =
    (cancels_of-only t orders c, λ w. rw w.4 (cancels_of-all t orders w.0 w.1 w.2 w.3))
