-- ===== src/Hyperliquid/Assets/Tables.antt =====
-- How the tables of internal/hyperliquid/client.go agree with one another.
use degenbox_hyperliquid_cli.Hyperliquid.Assets.{
  decode_main, fetch_main, Assets, no_assets, add_asset, add_universe, InfoApi, RefreshError,
  dex_offset, fetch_dex, add_dexes, refresh_builder_dex_assets, refresh_assets, get_asset_id,
  get_asset_name,
}
use degenbox_hyperliquid_cli.Hyperliquid.Types.{AssetInfo, AssetCtx}
use degenbox_hyperliquid_cli.Base.{
  ℕ, suc, ◌+◌, ◌≤◌, ◌<◌, ◌≡◌, refl, ◌⊎◌, inl, inr, Option, some, List, [], ◌∷◌, arith, ◌==◌,
  Bool-cases, Option-cases, length, get_elem?, drop, String, str_eq, eq_iff,
}
use degenbox_hyperliquid_cli.Base.Int.{pos}

-- Every market has the name of its id, and ids are below `bound`.
record Agrees (bound : ℕ) (t : Assets) : Type 0 where
  named : (market : String) (id : ℕ) → t.assets market ≡ some id → t.asset_names id ≡ some market
  below : (id : ℕ) (market : String) → t.asset_names id ≡ some market → id < bound

no_assets-Agrees : Agrees 0 no_assets
no_assets-Agrees = record { named = λ market id h. cc; below = λ id market h. cc }

Agrees-mono : {b c : ℕ} (t : Assets) → b ≤ c → Agrees b t → Agrees c t
Agrees-mono t le' h = record {
  named = h.named;
  below = λ id market k. let small = h.below id market k in omega arith;
}

add_asset-Agrees :
    (id : ℕ) (info : AssetInfo) (ctx : Option AssetCtx) (t : Assets)
    → Agrees id t
    → Agrees (suc id) (add_asset id info ctx t)
unfolding add_asset
add_asset-Agrees id info ctx t h = record {
  named = λ market k e. elim (Bool-cases (str_eq info.name market)) [
    | inl same ↦ ground (arith, eq_iff info.name market)
    | inr other ↦
        let old = h.named market k (ground arith) in
        let small = h.below k market old in ground arith
  ];
  below = λ k market e. elim (Bool-cases (id == k)) [
    | inl same ↦ ground arith
    | inr other ↦ let small = h.below k market (ground arith) in ground arith
  ];
}

add_universe-Agrees :
    (offset i : ℕ) (universe : List AssetInfo) (ctxs : List AssetCtx) (t : Assets)
    → Agrees (offset + i) t
    → Agrees (offset + i + length universe) (add_universe offset i universe ctxs t)
unfolding add_universe
add_universe-Agrees offset i [] ctxs t h = Agrees-mono t (omega arith) h
add_universe-Agrees offset i (info ∷ universe) ctxs t h =
    let added = add_asset-Agrees (offset + i) info (get_elem? ctxs i) t h in
    let later =
      add_universe-Agrees offset (i + 1) universe ctxs
        (add_asset (offset + i) info (get_elem? ctxs i) t) (Agrees-mono _ (omega arith) added) in
    Agrees-mono _ (omega arith) later

-- Each builder dex has no more assets than the ids that are reserved for it.
abbrev pub DexesFit : InfoApi → Type 0
DexesFit api =
    (raw : api.Raw) (universe : List AssetInfo) (ctxs : List AssetCtx)
    → fetch_dex api raw ≡ some (universe, ctxs)
    → length universe ≤ 10_000

-- The assets of the main dex stay below the ids of the first builder dex.
abbrev pub MainFits : InfoApi → Type 0
MainFits api =
    (raw : api.Raw) (universe : List AssetInfo)
    → api.decode_universe raw ≡ some universe
    → length universe ≤ 110_000

-- Every market that has an id is the name of that id.
abbrev pub IsConsistent : Assets → Type 0
IsConsistent t =
    (market : String) (id : ℕ)
    → get_asset_id t market ≡ some id
    → get_asset_name t (pos id) ≡ some market

module _ (api : InfoApi) where
  add_dexes-Agrees :
      (k : ℕ) (raws : List api.Raw) (t : Assets)
      → DexesFit api
      → Agrees (dex_offset api k) t
      → Agrees (dex_offset api (k + length raws)) (add_dexes api k raws t)
  unfolding add_dexes
  add_dexes-Agrees k [] t fit h = Agrees-mono t (omega arith) h
  add_dexes-Agrees k (raw ∷ raws) t fit h = elim (Option-cases (fetch_dex api raw)) [
    | inl skipped ↦ rw skipped (
        Agrees-mono _ (omega arith)
          (add_dexes-Agrees (k + 1) raws t fit (Agrees-mono t (omega arith) h)))
    | inr ((universe, ctxs), fetched) ↦
        let few = fit raw universe ctxs fetched in
        let added =
          add_universe-Agrees (dex_offset api k) 0 universe ctxs t
            (Agrees-mono t (omega arith) h) in
        rw fetched (
          Agrees-mono _ (omega arith) (
            add_dexes-Agrees (k + 1) raws (add_universe (dex_offset api k) 0 universe ctxs t) fit
              (Agrees-mono _ (omega arith) added)))
  ]

  refresh_builder_dex_assets-IsConsistent :
      (t : Assets)
      → DexesFit api
      → Agrees (dex_offset api 1) t
      → IsConsistent (refresh_builder_dex_assets api t)
  unfolding refresh_builder_dex_assets get_asset_id get_asset_name
  refresh_builder_dex_assets-IsConsistent t fit h = elim (Option-cases api.perp_dexs) [
    | inl missing ↦ rw missing h.named
    | inr (dexes, listed) ↦ rw listed (add_dexes-Agrees 1 (drop 1 dexes) t fit h).named
  ]

  decode_main-decoded :
      (parts : List api.Raw) (universe : List AssetInfo) (ctxs : List AssetCtx)
      → decode_main api parts ≡ inr (universe, ctxs)
      → (raw : api.Raw) × (api.decode_universe raw ≡ some universe)
  unfolding decode_main
  decode_main-decoded [] universe ctxs h = absurd (ground arith)
  decode_main-decoded (meta ∷ []) universe ctxs h = absurd (ground arith)
  decode_main-decoded (meta ∷ raw ∷ rest) universe ctxs h =
      elim (Option-cases (api.decode_universe meta)) [
        | inl bad ↦ absurd (ground arith)
        | inr (found, decoded) ↦ elim (Option-cases (api.decode_ctxs raw)) [
          | inl bad ↦ absurd (ground arith)
          | inr (found_ctxs, also) ↦ (meta, ground arith)
        ]
      ]

  fetch_main-decoded :
      (universe : List AssetInfo) (ctxs : List AssetCtx)
      → fetch_main api ≡ inr (universe, ctxs)
      → (raw : api.Raw) × (api.decode_universe raw ≡ some universe)
  unfolding fetch_main
  fetch_main-decoded universe ctxs h = elim (Option-cases (api.meta_and_asset_ctxs "")) [
    | inl failed ↦ absurd (ground arith)
    | inr (parts, replied) ↦ decode_main-decoded parts universe ctxs (ground arith)
  ]

  refresh_assets_kept :
      (t : Assets) (e : RefreshError) → fetch_main api ≡ inl e → (refresh_assets api t).0 ≡ t
  unfolding refresh_assets
  refresh_assets_kept t e h = ground arith

  refresh_assets_built :
      (t : Assets) (universe : List AssetInfo) (ctxs : List AssetCtx)
      → fetch_main api ≡ inr (universe, ctxs)
      → (refresh_assets api t).0
        ≡ refresh_builder_dex_assets api (add_universe 0 0 universe ctxs no_assets)
  unfolding refresh_assets
  refresh_assets_built t universe ctxs h = rw (h, refresh_assets)

  fetch_main-cases :
      ((e : RefreshError) × (fetch_main api ≡ inl e))
      ⊎ ((universe : List AssetInfo) × (ctxs : List AssetCtx) × (fetch_main api
            ≡ inr (universe, ctxs)))
  fetch_main-cases = split (fetch_main api) refl
    where
      split :
          (r : RefreshError ⊎ (List AssetInfo × List AssetCtx))
          → fetch_main api ≡ r
          → ((e : RefreshError) × (fetch_main api ≡ inl e))
            ⊎ ((universe : List AssetInfo) × (ctxs : List AssetCtx) × (fetch_main api
                  ≡ inr (universe, ctxs)))
      split (inl e) h = inl (e, h)
      split (inr (universe, ctxs)) h = inr (universe, ctxs, h)

  -- A refresh, whether it fails or goes through, leaves tables in which every market that has an id
  -- is the name of that id, if it found such tables and the universes fit the ids reserved for them.
  pub refresh_assets-IsConsistent :
      (t : Assets)
      → MainFits api
      → DexesFit api
      → IsConsistent t
      → (market : String) (id : ℕ) → get_asset_id (refresh_assets api t).0 market ≡ some id
      → get_asset_name (refresh_assets api t).0 (pos id) ≡ some market
  refresh_assets-IsConsistent t main fit h = elim fetch_main-cases [
    | inl (e, failed) ↦ rw (refresh_assets_kept t e failed) h
    | inr (universe, ctxs, fetched) ↦
        let (raw, decoded) = fetch_main-decoded universe ctxs fetched in
        let few = main raw universe decoded in
        rw (refresh_assets_built t universe ctxs fetched) (
          refresh_builder_dex_assets-IsConsistent _ fit (
            Agrees-mono _ (omega arith) (
              add_universe-Agrees 0 0 universe ctxs no_assets
                (Agrees-mono no_assets (omega arith) no_assets-Agrees))))
  ]

  -- A refresh that fails changes nothing.
  pub refresh_assets_failed :
      (t : Assets) (e : RefreshError)
      → (refresh_assets api t).1 ≡ some e
      → (refresh_assets api t).0 ≡ t
  unfolding refresh_assets
  refresh_assets_failed t e h = ground arith
