-- ===== src/Hyperliquid/Assets.antt =====
-- internal/hyperliquid/client.go: the tables of assets, `RefreshAssets` and the lookups in them.
-- The Go maps are functions; the replies of the info API, and the decoding of their JSON, a parameter.
pub mod Tables
use degenbox_hyperliquid_cli.Hyperliquid.Types.{AssetInfo, AssetCtx, ClearinghouseState}
use degenbox_hyperliquid_cli.Base.{
  ◌⊎◌, inl, inr, ℕ, zero, suc, ◌+◌, ◌-◌, ◌*◌, ◌/◌, ◌%◌, ◌^◌, ◌≤◌, ◌<◌, min, ◌≡◌, refl, sym, ap, ◌∙◌,
  subst, ◌≢◌, ◌↔◌, ◌⊎◌, inl, inr, Bool, true, false, not, ◌&&◌, ◌||◌, Option, none, some, List, [],
  ◌∷◌, ◌++◌, map, append_assoc, append-nil, arith, ltb, leb, ◌==◌, if◌then◌else◌, Bool-cases,
  Option-cases, length, get_elem?, set, get_or, replicate, drop, length-append, length-set,
  length-replicate, length-drop, get_or-set_self, get_or-set_ne, All, All-append, All-mono,
  All-get_elem?, String, str_eq, eq_iff,
}
use degenbox_hyperliquid_cli.Base.Int.{
  ℤ, pos, negsuc, pos_part, neg_part, sub_ℕ, ltb_ℤ, eqb_ℤ, ◌≤ℤ◌, ◌+ℤ◌, ◌-ℤ◌,
}
use degenbox_hyperliquid_cli.Clock.{second, minute, max_duration, sub, before, add_neg, unix_milli}

pub record Assets : Type 0 where
  pub assets : String → Option ℕ
  pub asset_names : ℕ → Option String
  pub assets_info : String → Option AssetInfo
  pub assets_ctx : String → Option AssetCtx

abbrev pub no_assets : Assets
no_assets = record {
  assets = λ _. none;
  asset_names = λ _. none;
  assets_info = λ _. none;
  assets_ctx = λ _. none;
}

abbrev pub put_name {ℓ} : {V : Type ℓ} → String → V → (String → Option V) → String → Option V
put_name k v m j = if str_eq k j then some v else m j

abbrev pub put_id {ℓ} : {V : Type ℓ} → ℕ → V → (ℕ → Option V) → ℕ → Option V
put_id k v m j = if k == j then some v else m j

-- One round of the loops over a universe: the asset `info` under the id `id`.
unfoldable pub add_asset : ℕ → AssetInfo → Option AssetCtx → Assets → Assets
add_asset id info ctx t = record {
  assets = put_name info.name id t.assets;
  asset_names = put_id id info.name t.asset_names;
  assets_info = put_name info.name info t.assets_info;
  assets_ctx = elim ctx [ none ↦ t.assets_ctx | some c ↦ put_name info.name c t.assets_ctx ];
}

-- The loop over a universe, from index `i`, with ids from `offset`.
unfoldable pub add_universe : ℕ → ℕ → List AssetInfo → List AssetCtx → Assets → Assets
add_universe offset i [] ctxs t = t
add_universe offset i (info ∷ universe) ctxs t =
    add_universe offset (i + 1) universe ctxs (add_asset (offset + i) info (get_elem? ctxs i) t)

-- The info API: requests that may fail, and the decoding of raw JSON, which may fail too.
pub record InfoApi : Type 1 where
  pub Raw : Type 0
  pub meta_and_asset_ctxs : String → Option (List Raw)
  pub perp_dexs : Option (List Raw)
  pub is_null : Raw → Bool
  pub decode_dex_name : Raw → Option String
  pub decode_universe : Raw → Option (List AssetInfo)
  pub decode_ctxs : Raw → Option (List AssetCtx)
  -- What a decoding leaves behind whose error is passed over.
  pub decode_ctxs_best_effort : Raw → List AssetCtx

pub data RefreshError : Type 0 where
  no_meta bad_format bad_meta bad_ctxs : RefreshError

module _ (api : InfoApi) where
  open api use {
    Raw, meta_and_asset_ctxs, perp_dexs, is_null, decode_dex_name, decode_universe, decode_ctxs,
    decode_ctxs_best_effort,
  }

  -- The ids of the assets of a builder dex.
  abbrev pub dex_offset : ℕ → ℕ
  dex_offset dex_index = 100_000 + dex_index * 10_000

  -- The universe of a dex and its contexts, unless a step on the way fails.
  unfoldable pub fetch_dex : Raw → Option (List AssetInfo × List AssetCtx)
  fetch_dex raw = if is_null raw then none else elim (decode_dex_name raw) [
    | none ↦ none
    | some name ↦ if str_eq name "" then none else elim (meta_and_asset_ctxs name) [
      | none ↦ none
      | some parts ↦ elim parts [
        | [] ↦ none
        | meta ∷ rest ↦ elim rest [
          | [] ↦ none
          | ctxs ∷ _ ↦ elim (decode_universe meta) [
            | none ↦ none
            | some universe ↦ some (universe, decode_ctxs_best_effort ctxs)
          ]
        ]
      ]
    ]
  ]

  -- The loop of `refreshBuilderDexAssets`, from index `dex_index`.
  unfoldable pub add_dexes : ℕ → List Raw → Assets → Assets
  unfolding fetch_dex
  add_dexes dex_index [] t = t
  add_dexes dex_index (raw ∷ raws) t = add_dexes (dex_index + 1) raws (elim (fetch_dex raw) [
    | none ↦ t
    | some (universe, ctxs) ↦ add_universe (dex_offset dex_index) 0 universe ctxs t
  ])

  -- `refreshBuilderDexAssets`: it starts at index 1.
  unfoldable pub refresh_builder_dex_assets : Assets → Assets
  unfolding add_dexes
  refresh_builder_dex_assets t = elim perp_dexs [
    | none ↦ t
    | some dexes ↦ add_dexes 1 (drop 1 dexes) t
  ]

  -- The two parts of the reply that `RefreshAssets` decodes, or the error that it returns.
  unfoldable pub decode_main : List Raw → RefreshError ⊎ (List AssetInfo × List AssetCtx)
  decode_main [] = inl bad_format
  decode_main (meta ∷ []) = inl bad_format
  decode_main (meta ∷ raw_ctxs ∷ _) = elim (decode_universe meta) [
    | none ↦ inl bad_meta
    | some universe ↦ elim (decode_ctxs raw_ctxs) [
      | none ↦ inl bad_ctxs
      | some ctxs ↦ inr (universe, ctxs)
    ]
  ]

  unfoldable pub fetch_main : RefreshError ⊎ (List AssetInfo × List AssetCtx)
  unfolding decode_main
  fetch_main = elim (meta_and_asset_ctxs "") [ none ↦ inl no_meta | some parts ↦ decode_main parts ]

  -- `RefreshAssets`: the tables and the error. Until the replies are decoded nothing is changed.
  unfoldable pub refresh_assets : Assets → Assets × Option RefreshError
  unfolding refresh_builder_dex_assets add_universe fetch_main
  refresh_assets t = elim fetch_main [
    | inl e ↦ (t, some e)
    | inr (universe, ctxs) ↦
        (refresh_builder_dex_assets (add_universe 0 0 universe ctxs no_assets), none)
  ]

-- `GetAssetID`, `GetAssetName`, `GetAssetInfo`; `none` is an error. No id is negative.
unfoldable pub get_asset_id : Assets → String → Option ℕ
get_asset_id t market = t.assets market

unfoldable pub get_asset_name : Assets → ℤ → Option String
get_asset_name t (pos id) = t.asset_names id
get_asset_name t (negsuc n) = none

unfoldable pub get_asset_info : Assets → String → Option AssetInfo
get_asset_info t market = t.assets_info market

-- `GetOraclePrice` and `GetMaxLeverage`.
unfoldable pub get_oracle_price : Assets → String → Option String
get_oracle_price t market = elim (t.assets_ctx market) [ none ↦ none | some c ↦ some c.oracle_px ]

unfoldable pub get_max_leverage : Assets → String → Option ℤ
get_max_leverage t market = elim (t.assets_info market) [
  | none ↦ none
  | some info ↦ some info.max_leverage
]
