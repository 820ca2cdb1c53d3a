-- ===== src/Clock.antt =====
-- Go's `time` package, as far as the client uses it.
-- A `time.Time` is the number of nanoseconds since the zero `Time` (January 1, year 1), so the
-- zero value is 0; a `time.Duration` is a signed number of nanoseconds in an int64.
use degenbox_hyperliquid_cli.Base.{
  ◌+◌, ◌%◌, ℕ, ◌-◌, ◌*◌, ◌/◌, ◌^◌, Bool, min, ltb, leb, if◌then◌else◌,
}
use degenbox_hyperliquid_cli.Base.Int.{ℤ, pos, negsuc, sub_ℕ}

abbrev pub second : ℕ
second = 1_000_000_000

abbrev pub minute : ℕ
minute = 60_000_000_000

abbrev pub max_duration : ℕ
max_duration = 2 ^ 63 - 1

-- `now.Sub(t)`: the difference, saturated to the range of an int64.
unfoldable pub sub : ℕ → ℕ → ℤ
sub now t =
    if leb t now then pos (min (now - t) max_duration) else negsuc (min (t - now - 1) max_duration)

-- `t.Before(u)`.
abbrev pub before : ℕ → ℕ → Bool
before t u = ltb t u

-- `t.Add(-d)`. No instant lies before the zero `Time`, so a bound below it is no bound.
abbrev pub add_neg : ℕ → ℕ → ℕ
add_neg t d = t - d

-- The zero `Time` of the Unix epoch, and `t.UnixMilli()`.
abbrev pub unix_epoch : ℕ
unix_epoch = 62_135_596_800 * 1_000_000_000

abbrev pub unix_milli : ℕ → ℤ
unix_milli t = sub_ℕ (t / 1_000_000) (unix_epoch / 1_000_000)

-- The int64 that an integer wraps around to.
abbrev pub wrap_residue : ℕ → ℤ
wrap_residue r = if leb r max_duration then pos r else sub_ℕ r (2 ^ 64)

unfoldable pub to_int64 : ℤ → ℤ
to_int64 (pos n) = wrap_residue (n % 2 ^ 64)
to_int64 (negsuc n) = wrap_residue ((2 ^ 64 - (n + 1) % 2 ^ 64) % 2 ^ 64)
