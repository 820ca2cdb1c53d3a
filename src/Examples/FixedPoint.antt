-- ===== src/Examples/FixedPoint.antt =====
-- A concrete float64 for the examples: fixed point with six decimals, and a NaN.
use Prim.Native.Char.{code}
use degenbox_hyperliquid_cli.Float.{Float64, IsNan, NanPropagates}
use degenbox_hyperliquid_cli.Base.{
  ℕ, suc, ◌+◌, ◌-◌, ◌*◌, ◌/◌, ◌≡◌, refl, Bool, true, false, not, ◌&&◌, Option, none, some, List, [],
  ◌∷◌, arith, leb, if◌then◌else◌, String, str_eq,
}
use degenbox_hyperliquid_cli.Base.Int.{ℤ, pos, negsuc, pos_part, neg_part, sub_ℕ, ltb_ℤ, eqb_ℤ}

abbrev pub Fixed : Type 0
Fixed = Option ℤ

abbrev pub lift2 : (ℤ → ℤ → ℤ) → Fixed → Fixed → Fixed
lift2 f none y = none
lift2 f (some x) none = none
lift2 f (some x) (some y) = some (f x y)

abbrev pub test2 : (ℤ → ℤ → Bool) → Fixed → Fixed → Bool
test2 f none y = false
test2 f (some x) none = false
test2 f (some x) (some y) = f x y

abbrev pub lift1 : (ℤ → ℤ) → Fixed → Fixed
lift1 f none = none
lift1 f (some x) = some (f x)

abbrev pub one : ℕ
one = 1_000_000

-- a * b / c, toward zero.
abbrev pub scale : ℕ → ℕ → ℤ → ℤ
scale num den (pos n) = pos (n * num / den)
scale num den (negsuc n) = sub_ℕ 0 (suc n * num / den)

abbrev pub times : ℤ → ℤ → ℤ
times a (pos n) = scale n one a
times a (negsuc n) = scale (suc n) one a

abbrev pub over : ℤ → ℤ → ℤ
over a (pos n) = scale one n a
over a (negsuc n) = scale one (suc n) a

abbrev pub codes : String → List ℕ
codes String.[] = []
codes (String.◌∷◌ c s) = code c ∷ codes s

-- Decimal digits, or "NaN".
abbrev pub digits_from : ℕ → List ℕ → Fixed × Bool
digits_from n [] = (some (pos (n * one)), true)
digits_from n (c ∷ cs) =
    let rest = digits_from (n * 10 + (c - b'0')) cs in
    if leb b'0' c && leb c b'9' then rest else (some (pos 0), false)

abbrev pub parse_fixed : String → Fixed × Bool
parse_fixed s =
    if str_eq s "NaN"
    then (none, true)
    else if str_eq s ""
    then (some (pos 0), false)
    else digits_from 0 (codes s)

abbrev pub fixed : Float64
fixed = record {
  F = Fixed;
  of_ℤ = λ n. some (scale one 1 n);
  add = lift2 (λ a b. sub_ℕ (pos_part a + pos_part b) (neg_part a + neg_part b));
  sub = lift2 (λ a b. sub_ℕ (pos_part a + neg_part b) (neg_part a + pos_part b));
  mul = lift2 times;
  div = lift2 over;
  neg = lift1 (λ a. sub_ℕ (neg_part a) (pos_part a));
  abs = lift1 (λ a. pos (pos_part a + neg_part a));
  lt = test2 ltb_ℤ;
  le = test2 (λ a b. not (ltb_ℤ b a));
  eq = test2 eqb_ℤ;
  parse = parse_fixed;
  format_f = λ x digits. "";
  format_g = λ x. "";
  c105 = some (pos 1_050_000);
  c095 = some (pos 950_000);
}

none-IsNan : IsNan fixed none
none-IsNan = record { not_lt = λ y. refl; not_gt = not_gt; not_le = λ y. refl }
  where
    not_gt : (y : Fixed) → test2 ltb_ℤ y none ≡ false
    not_gt none = refl
    not_gt (some y) = refl

pub only_none : (x : Fixed) → IsNan fixed x → x ≡ none
only_none none h = refl
only_none (some x) h = absurd (ground (arith, h.not_le (some x)))

lift2_right : (f : ℤ → ℤ → ℤ) (x : Fixed) → lift2 f x none ≡ none
lift2_right f none = refl
lift2_right f (some x) = refl

pub IsNan-of : (x : Fixed) → x ≡ none → IsNan fixed x
IsNan-of x e = rw e none-IsNan

pub fixed-NanPropagates : NanPropagates fixed
fixed-NanPropagates = record {
  add_left = λ x y h. rw (only_none x h) none-IsNan;
  add_right = λ x y h. rw (only_none y h, lift2_right _ x) none-IsNan;
  sub_left = λ x y h. rw (only_none x h) none-IsNan;
  mul_left = λ x y h. rw (only_none x h) none-IsNan;
  mul_right = λ x y h. rw (only_none y h, lift2_right _ x) none-IsNan;
  div_left = λ x y h. rw (only_none x h) none-IsNan;
  abs = λ x h. rw (only_none x h) none-IsNan;
}
