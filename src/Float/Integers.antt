-- ===== src/Float/Integers.antt =====
-- The float64 nearest to an int64, as encoding/json decodes an integer into `any`: of two that are as
-- near, the one with an even significand of 53 bits.
use degenbox_hyperliquid_cli.Base.{
  ℕ, zero, suc, ◌+◌, ◌*◌, ◌/◌, ◌%◌, ◌^◌, ◌<◌, ◌≡◌, refl, ap, ◌∙◌, ◌&&◌, ◌||◌, ltb, lt→ltb, ◌==◌,
  if◌then◌else◌, arith,
}
use degenbox_hyperliquid_cli.Base.Int.{ℤ, pos, negsuc, pos_part, neg_part, sub_ℕ}

-- The distance of the floats around a number: 1 below 2 ^ 53, doubled with each further bit.
abbrev ulp : ℕ → ℕ → ℕ
ulp zero n = 1
ulp (suc fuel) n = let rest = ulp fuel (n / 2) in if ltb n (2 ^ 53) then 1 else 2 * rest

abbrev nearest_by : ℕ → ℕ → ℕ
nearest_by u n =
    if ltb (2 * (n % u)) u || (2 * (n % u) == u && (n / u) % 2 == 0)
    then n / u * u
    else (n / u + 1) * u

-- The numbers below 2 ^ 64 have at most eleven bits more than a significand.
unfoldable pub nearest : ℕ → ℕ
nearest n = nearest_by (ulp 11 n) n

unfoldable pub to_float64 : ℤ → ℤ
unfolding nearest
to_float64 (pos n) = pos (nearest n)
to_float64 (negsuc n) = sub_ℕ 0 (nearest (suc n))

-- The integers that a float64 holds without loss, up to 53 bits.
abbrev pub IsExact : ℤ → Type 0
IsExact i = (pos_part i < 2 ^ 53) × (neg_part i < 2 ^ 53)

nearest_by_one : (n : ℕ) → nearest_by 1 n ≡ n
nearest_by_one n =
    let none_left : n % 1 ≡ 0 = omega arith in
    let whole : n / 1 * 1 ≡ n = omega arith in rw (none_left, whole) refl

nearest-below : (n : ℕ) → n < 2 ^ 53 → nearest n ≡ n
unfolding nearest
nearest-below n h =
    let below = lt→ltb n (2 ^ 53) h in
    let one : ulp 11 n ≡ 1 = rw below refl in ap (λ u. nearest_by u n) one ∙ nearest_by_one n

pub to_float64-exact : (i : ℤ) → IsExact i → to_float64 i ≡ i
unfolding to_float64
to_float64-exact (pos n) h = ap pos (nearest-below n h.0)
to_float64-exact (negsuc n) h = ap (λ m. sub_ℕ 0 m) (nearest-below (suc n) h.1) ∙ ground arith
