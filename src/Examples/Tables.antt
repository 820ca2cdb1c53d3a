-- ===== src/Examples/Tables.antt =====
-- The nonces and the tables of assets at concrete inputs.
use degenbox_hyperliquid_cli.Hyperliquid.Assets.{
  fetch_main, decode_main, refresh_builder_dex_assets, add_dexes, add_universe, get_asset_id,
  get_asset_name, get_asset_id, Assets, no_assets, add_asset, InfoApi, bad_format, refresh_assets,
  fetch_dex,
}
use degenbox_hyperliquid_cli.Hyperliquid.Types.{AssetInfo}
use degenbox_hyperliquid_cli.Hyperliquid.Nonce.{next_nonce}
use degenbox_hyperliquid_cli.Hyperliquid.Nonce.Race.{
  idle, loaded, Shared, set_phase, load, swap, retry, Run, here, more, ◌<ℤ◌, drawn_increases,
}
use degenbox_hyperliquid_cli.Hyperliquid.Assets.Tables.{
  IsConsistent, MainFits, DexesFit, refresh_assets-IsConsistent,
}
use degenbox_hyperliquid_cli.Base.{
  ℕ, ◌≡◌, refl, none, some, [], ◌∷◌, arith, ◌==◌, if◌then◌else◌, str_eq,
}
use degenbox_hyperliquid_cli.Base.Int.{pos}

abbrev start : Shared
start = record { last_nonce = pos 5; phase = λ g. idle; drawn = [] }

-- Two goroutines load the same nonce; the first one that swaps wins, the other has to retry.
abbrev both : Shared
both = record start {
  phase = set_phase (set_phase start.phase 0 (loaded (pos 5) (pos 9))) 1 (loaded (pos 5) (pos 9));
}

abbrev after : Shared
after = record { last_nonce = pos 9; phase = set_phase both.phase 1 idle; drawn = pos 9 ∷ [] }

abbrev retried : Shared
retried = record after { phase = set_phase after.phase 0 idle }

abbrev loaded_again : Shared
loaded_again = record retried { phase = set_phase retried.phase 0 (loaded (pos 9) (pos 10)) }

abbrev end : Shared
end = record {
  last_nonce = pos 10;
  phase = set_phase loaded_again.phase 0 idle;
  drawn = pos 10 ∷ pos 9 ∷ [];
}

race : Run start end
unfolding next_nonce set_phase
race =
    more
      (more
        (more
          (more
            (more (more here (omega arith) (load start 0 (pos 9))) (omega arith) (
              load (record start { phase = set_phase start.phase 0 (loaded (pos 5) (pos 9)) }) 1
                (pos 9)))
            (omega arith) (swap both 1 (pos 5) (pos 9) refl refl))
          (omega arith) (retry after 0 (pos 5) (pos 9) refl (λ h. cc)))
        (omega arith) (load retried 0 (pos 9)))
      (omega arith) (swap loaded_again 0 (pos 9) (pos 10) refl refl)

drawn_increases_example : pos 9 <ℤ pos 10
drawn_increases_example =
    drawn_increases 0 1 (pos 10) (pos 9) (refl, λ g. refl) race (omega arith) refl refl

abbrev btc : AssetInfo
btc = record { name = "BTC"; sz_decimals = pos 5; max_leverage = pos 40 }

abbrev gold : AssetInfo
gold = record { name = "xyz:GOLD"; sz_decimals = pos 2; max_leverage = pos 10 }

-- Raw JSON by its number: 0 is null, 1 and 3 are universes, 2 is a list of contexts and 4 names a dex.
abbrev api : InfoApi
api = record {
  Raw = ℕ;
  meta_and_asset_ctxs = λ dex. some ((if str_eq dex "" then 1 else 3) ∷ 2 ∷ []);
  perp_dexs = some (0 ∷ 4 ∷ []);
  is_null = λ raw. raw == 0;
  decode_dex_name = λ raw. if raw == 4 then some "xyz" else none;
  decode_universe =
      λ raw. if raw == 1 then some (btc ∷ []) else if raw == 3 then some (gold ∷ []) else none;
  decode_ctxs = λ raw. if raw == 2 then some [] else none;
  decode_ctxs_best_effort = λ raw. [];
}

api-MainFits : MainFits api
api-MainFits raw universe h = ground arith

api-DexesFit : DexesFit api
unfolding fetch_dex
api-DexesFit raw universe ctxs h = ground arith

no_assets-IsConsistent : IsConsistent no_assets
unfolding get_asset_id
no_assets-IsConsistent market id h = cc

gold_id : get_asset_id (refresh_assets api no_assets).0 "xyz:GOLD" ≡ some 110_000
unfolding refresh_assets fetch_main decode_main refresh_builder_dex_assets add_dexes add_universe
    add_asset fetch_dex get_asset_id
gold_id = refl

refresh_assets-IsConsistent_example :
    get_asset_name (refresh_assets api no_assets).0 (pos 110_000) ≡ some "xyz:GOLD"
refresh_assets-IsConsistent_example =
    refresh_assets-IsConsistent api no_assets api-MainFits api-DexesFit no_assets-IsConsistent
      "xyz:GOLD" 110_000 gold_id

-- A reply of one part is refused.
abbrev short_api : InfoApi
short_api = record api { meta_and_asset_ctxs = λ dex. some (1 ∷ []) }

abbrev one_asset : Assets
one_asset = add_asset 0 btc none no_assets

failed : (refresh_assets short_api one_asset).1 ≡ some bad_format
unfolding refresh_assets
failed = refl
