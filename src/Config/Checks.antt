-- ===== src/Config/Checks.antt =====
-- What internal/config/config.go accepts, and what it makes of the environment.
use degenbox_hyperliquid_cli.Float.{Float64}
use degenbox_hyperliquid_cli.Relay.Validator.{RiskLimits}
use degenbox_hyperliquid_cli.Text.{has_prefix, skip, codes}
use degenbox_hyperliquid_cli.Config.Text.{decoded_length, all_hex}
use degenbox_hyperliquid_cli.Config.{
  Config, set_text, set_int, set_flag, set_float, is_valid_hex_address, load_from_env,
  validate_limits, validate_config, apply_defaults,
}
use degenbox_hyperliquid_cli.Base.{
  zero, suc, ◌≡◌, ◌≢◌, ◌↔◌, ◌⊎◌, inl, inr, Bool, true, false, none, some, arith, ◌==◌,
  if◌then◌else◌, Bool-cases, length, String, str_eq, eq_iff,
}
use degenbox_hyperliquid_cli.Base.Int.{ℤ, pos, negsuc, eqb_ℤ, ◌≤ℤ◌}

-- The prefix, and forty hexadecimal digits after it.
abbrev pub IsAddress : String → Type 0
IsAddress s =
    ((has_prefix s "0x" ≡ true) ⊎ (has_prefix s "0X" ≡ true))
    × (all_hex (codes (skip 2 s)) ≡ true)
    × (length (codes (skip 2 s)) ≡ 40)

decoded_length-hex :
    (s : String)
    → (elim (decoded_length s) [ none ↦ false | some bytes ↦ bytes == 20 ] ≡ true)
      ↔ ((all_hex (codes s) ≡ true) × (length (codes s) ≡ 40))
unfolding decoded_length
decoded_length-hex s = (λ h. ground arith, λ h. ground arith)

is_valid_hex_address_lem : (s : String) → (is_valid_hex_address s ≡ true) ↔ IsAddress s
unfolding is_valid_hex_address
is_valid_hex_address_lem s = (
  λ h. (
    elim (Bool-cases (has_prefix s "0x")) [
      | inl small ↦ inl small
      | inr other ↦ inr (ground arith)
    ],
    ((decoded_length-hex (skip 2 s)).0 (ground arith)).0,
    ((decoded_length-hex (skip 2 s)).0 (ground arith)).1,
  ),
  λ h.
      let fine = (decoded_length-hex (skip 2 s)).1 (h.1, h.2) in
      elim h.0 [ inl small ↦ ground arith | inr big ↦ ground arith ],
)

set_text-set_text : (v old : String) → set_text v (set_text v old) ≡ set_text v old
unfolding set_text
set_text-set_text v old = ground arith

set_int-set_int : (v : String) (old : ℤ) → set_int v (set_int v old) ≡ set_int v old
unfolding set_int
set_int-set_int v old = ground arith

set_flag-set_flag : (v : String) (old : Bool) → set_flag v (set_flag v old) ≡ set_flag v old
unfolding set_flag
set_flag-set_flag v old = ground arith

default-ne : (d n : ℤ) → d ≢ pos 0 → (if eqb_ℤ n (pos 0) then d else n) ≢ pos 0
default-ne d (pos zero) h = h
default-ne d (pos (suc n)) h = λ e. ground arith
default-ne d (negsuc n) h = λ e. ground arith

module _ (fl : Float64) where
  open fl use {F, of_ℤ, le, eq, parse}

  set_float-set_float :
      (v : String) (old : F) → set_float fl v (set_float fl v old) ≡ set_float fl v old
  unfolding set_float
  set_float-set_float v old = ground arith

  -- Applying the environment again changes nothing: what it sets does not depend on what was set.
  pub load_from_env-load_from_env :
      (env : String → String) (cfg : Config F)
      → load_from_env fl env (load_from_env fl env cfg) ≡ load_from_env fl env cfg
  unfolding load_from_env
  load_from_env-load_from_env env cfg =
      simp (set_text-set_text, set_int-set_int, set_flag-set_flag, set_float-set_float)

  -- What the checks ask of the settings.
  pub record IsUsable (c : Config F) : Type 0 where
    pub has_key : c.private_key ≢ ""
    pub known_network : (c.network ≡ "mainnet") ⊎ (c.network ≡ "testnet")
    pub agent_has_wallet : (c.is_agent_mode ≡ false) ⊎ (c.wallet_addr ≢ "")
    pub wallet_address : (c.wallet_addr ≡ "") ⊎ IsAddress c.wallet_addr
    pub some_leverage : pos 1 ≤ℤ c.risk_limits.max_leverage
    pub some_size : le c.risk_limits.max_order_size_usd (of_ℤ (pos 0)) ≡ false

  -- The settings pass the checks exactly when there is a key, the network is one of the two, there is
  -- a wallet where an agent signs, a wallet has a valid address, and the limits on leverage and on
  -- the size of orders are positive, or the latter a NaN.
  pub validate_config_lem : (c : Config F) → (validate_config fl c ≡ none) ↔ IsUsable c
  unfolding validate_config validate_limits
  validate_config_lem c = (
    λ h. record {
      has_key = λ e. ground (arith, eq_iff c.private_key "");
      known_network = elim (Bool-cases (str_eq c.network "mainnet")) [
        | inl main ↦ inl ((eq_iff c.network "mainnet").0 main)
        | inr other ↦ inr ((eq_iff c.network "testnet").0 (ground arith))
      ];
      agent_has_wallet = elim (Bool-cases c.is_agent_mode) [
        | inl agent ↦ inr (λ e. ground (arith, eq_iff c.wallet_addr ""))
        | inr other ↦ inl other
      ];
      wallet_address = elim (Bool-cases (str_eq c.wallet_addr "")) [
        | inl no_wallet ↦ inl ((eq_iff c.wallet_addr "").0 no_wallet)
        | inr wallet ↦ inr ((is_valid_hex_address_lem c.wallet_addr).0 (ground arith))
      ];
      some_leverage = ground arith;
      some_size = ground arith;
    },
    λ u. ground (
      arith,
      u.has_key,
      u.known_network,
      u.agent_has_wallet,
      u.wallet_address,
      u.some_leverage,
      u.some_size,
      eq_iff c.private_key "",
      eq_iff c.network "mainnet",
      eq_iff c.network "testnet",
      eq_iff c.wallet_addr "",
      is_valid_hex_address_lem c.wallet_addr,
    ),
  )

  -- The limits that stand after the defaults are none of them zero, if 5 is not 0 as a float64.
  pub apply_defaults_set :
      (r : RiskLimits F)
      → eq (of_ℤ (pos 5)) (of_ℤ (pos 0)) ≡ false
      → (eq (apply_defaults fl r).max_price_dev_pct (of_ℤ (pos 0)) ≡ false)
        × ((apply_defaults fl r).max_orders_per_step ≢ pos 0)
        × ((apply_defaults fl r).max_steps_per_instr ≢ pos 0)
        × ((apply_defaults fl r).max_per_minute ≢ pos 0)
  unfolding apply_defaults
  apply_defaults_set r five = (
    ground arith,
    default-ne (pos 10) r.max_orders_per_step (λ e. cc),
    default-ne (pos 8) r.max_steps_per_instr (λ e. cc),
    default-ne (pos 30) r.max_per_minute (λ e. cc),
  )
