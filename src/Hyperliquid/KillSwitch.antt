-- ===== src/Hyperliquid/KillSwitch.antt =====
-- internal/hyperliquid/client.go: `CancelAllOrders`, `CloseAllPositions` and `GetL2Mid`.
-- The replies of the info API are parameters; `none` is an error.
pub mod Closing
use degenbox_hyperliquid_cli.Float.{Float64}
use degenbox_hyperliquid_cli.Hyperliquid.Types.{
  OrderWire, AssetPosition, ClearinghouseState, OpenOrder, CancelSpec, OrderResponse,
}
use degenbox_hyperliquid_cli.Hyperliquid.Assets.{
  Assets, get_asset_id, get_asset_info, get_oracle_price,
}
use degenbox_hyperliquid_cli.Hyperliquid.Exchange.{
  Transport, Result, ok, err, place_order, cancel_order,
}
use degenbox_hyperliquid_cli.Base.{
  ℕ, zero, suc, ◌+◌, ◌-◌, ◌*◌, ◌/◌, ◌%◌, ◌^◌, ◌≤◌, ◌<◌, min, ◌≡◌, refl, sym, ap, ◌∙◌, subst, ◌≢◌,
  ◌↔◌, ◌⊎◌, inl, inr, Bool, true, false, not, ◌&&◌, ◌||◌, Option, none, some, List, [], ◌∷◌, ◌++◌,
  map, append_assoc, append-nil, arith, ltb, leb, ◌==◌, if◌then◌else◌, Bool-cases, Option-cases,
  length, get_elem?, set, get_or, replicate, drop, length-append, length-set, length-replicate,
  length-drop, get_or-set_self, get_or-set_ne, All, All-append, All-mono, All-get_elem?, decimal,
  String, str_eq, eq_iff,
}
use degenbox_hyperliquid_cli.Base.Int.{
  ℤ, pos, negsuc, pos_part, neg_part, sub_ℕ, ltb_ℤ, eqb_ℤ, ◌≤ℤ◌, ◌+ℤ◌, ◌-ℤ◌,
}
use degenbox_hyperliquid_cli.Clock.{second, minute, max_duration, sub, before, add_neg, unix_milli}

-- The loop of `CancelAllOrders`: an order in an unknown market is passed over.
unfoldable pub cancels_of : Assets → List OpenOrder → List CancelSpec
cancels_of t [] = []
cancels_of t (o ∷ orders) =
    let rest = cancels_of t orders in
    elim (get_asset_id t o.coin) [ none ↦ rest | some id ↦ record { a = pos id; o = o.oid } ∷ rest ]

-- `CancelAllOrders`: the new `lastNonce` and the error.
unfoldable pub cancel_all_orders :
    Transport → Assets → ℤ → ℤ → Option (List OpenOrder) → ℤ × Result (Unit {0})
cancel_all_orders tr t now last none = (last, err "failed to fetch open orders")
cancel_all_orders tr t now last (some orders) = elim (cancels_of t orders) [
  | [] ↦ (last, ok tt)
  | c ∷ cs ↦ cancel_order tr now last (c ∷ cs)
]

module _ (fl : Float64) where
  open fl use {F, of_ℤ, add, mul, div, abs, lt, le, eq, parse, format_f, format_g, c105, c095}

  -- What `CloseAllPositions` reads of a position: the size, signed.
  unfoldable pub size_of : AssetPosition → F
  size_of ap = (parse ap.position.szi).0

  -- The price of the oracle, 0 where there is none or none that can be read.
  unfoldable pub oracle_of : Assets → String → F
  oracle_of t coin = (parse (elim (get_oracle_price t coin) [ none ↦ "" | some px ↦ px ])).0

  -- The decimals that the size is written with, 4 for an unknown asset.
  unfoldable pub decimals_of : Assets → String → ℤ
  decimals_of t coin = elim (get_asset_info t coin) [ none ↦ pos 4 | some info ↦ info.sz_decimals ]

  -- The order that closes a position.
  unfoldable pub closing_order : Assets → AssetPosition → ℕ → OrderWire
  closing_order t ap id =
      let is_buy = lt (size_of ap) (of_ℤ (pos 0)) in
      let oracle = oracle_of t ap.position.coin in
      record {
        a = pos id;
        b = is_buy;
        p = format_g (if is_buy then mul oracle c105 else mul oracle c095);
        s = format_f (abs (size_of ap)) (decimals_of t ap.position.coin);
        r = true;
        t = record { limit = some (record { tif = "Ioc" }); trigger = none };
        c = "";
      }

  -- One round of the loop of `CloseAllPositions`: the order, unless the position is passed over.
  unfoldable pub close_position : Assets → AssetPosition → Option OrderWire
  close_position t ap =
      if eq (size_of ap) (of_ℤ (pos 0)) then none else elim (get_asset_id t ap.position.coin) [
        | none ↦ none
        | some id ↦
            if le (oracle_of t ap.position.coin) (of_ℤ (pos 0))
            then none
            else some (closing_order t ap id)
      ]

  unfoldable pub closing_orders : Assets → List AssetPosition → List OrderWire
  closing_orders t [] = []
  closing_orders t (ap ∷ aps) =
      let rest = closing_orders t aps in
      elim (close_position t ap) [ none ↦ rest | some o ↦ o ∷ rest ]

  -- `CloseAllPositions`.
  unfoldable pub close_all_positions :
      Transport → Assets → ℤ → ℤ → Option ClearinghouseState → ℤ × Result (Option OrderResponse)
  close_all_positions tr t now last none = (last, err "failed to fetch positions")
  close_all_positions tr t now last (some state) = elim (closing_orders t state.asset_positions) [
    | [] ↦ (last, ok none)
    | o ∷ os ↦ place_order tr now last (o ∷ os) "na"
  ]

  -- `GetL2Mid`, on the prices of the two sides of the book.
  unfoldable pub get_l2_mid : Option (List String × List String) → Option F
  get_l2_mid none = none
  get_l2_mid (some ([], bids)) = none
  get_l2_mid (some (ask ∷ asks, [])) = none
  get_l2_mid (some (ask ∷ asks, bid ∷ bids)) =
      if (parse ask).1 && (parse bid).1
      then some (div (add (parse ask).0 (parse bid).0) (of_ℤ (pos 2)))
      else none
