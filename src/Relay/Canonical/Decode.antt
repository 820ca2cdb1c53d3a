-- ===== src/Relay/Canonical/Decode.antt =====
-- What the signed encoding of internal/relay/canonical.go can be read back to: orders and the lists
-- of a step.
use degenbox_hyperliquid_cli.Hyperliquid.Types.{
  OrderWire, OrderType, CancelSpec, CancelCloidSpec, ModifySpec, LimitSpec, TriggerWire,
}
use degenbox_hyperliquid_cli.Relay.Canonical.{
  Json, string, int, float, boolean, array, typed_array, object, Items, nil, cons, Fields, end,
  field, field_if, items, order_json, cancel_json, cancel_cloid_json, modify_json, limit_fields,
  trigger_fields,
}
use degenbox_hyperliquid_cli.Float.Integers.{to_float64}
use degenbox_hyperliquid_cli.Base.{
  map, ◌≡◌, refl, inl, inr, Bool, true, false, not, Option, none, some, List, [], ◌∷◌, arith,
  if◌then◌else◌, Bool-cases, String, str_eq, eq_iff,
}
use degenbox_hyperliquid_cli.Base.Int.{ℤ, pos}

abbrev pub get : String → Fields → Option Json
get key end = none
get key (field k v fs) = let rest = get key fs in if str_eq k key then some v else rest

abbrev text_in : Json → String
text_in (string s) = s
text_in (int n) = ""
text_in (float n) = ""
text_in (boolean b) = ""
text_in (array xs) = ""
text_in (typed_array xs) = ""
text_in (object fs) = ""

abbrev number_in : Json → ℤ
number_in (string s) = pos 0
number_in (int n) = n
number_in (float n) = n
number_in (boolean b) = pos 0
number_in (array xs) = pos 0
number_in (typed_array xs) = pos 0
number_in (object fs) = pos 0

abbrev flag_in : Json → Bool
flag_in (string s) = false
flag_in (int n) = false
flag_in (float n) = false
flag_in (boolean b) = b
flag_in (array xs) = false
flag_in (typed_array xs) = false
flag_in (object fs) = false

abbrev pub fields_in : Json → Fields
fields_in (string s) = end
fields_in (int n) = end
fields_in (float n) = end
fields_in (boolean b) = end
fields_in (array xs) = end
fields_in (typed_array xs) = end
fields_in (object fs) = fs

abbrev pub all_in {ℓ} : {A : Type ℓ} → (Json → A) → Items → List A
all_in dec nil = []
all_in dec (cons x xs) = dec x ∷ all_in dec xs

abbrev pub list_in {ℓ} : {A : Type ℓ} → (Json → A) → Json → List A
list_in dec (string s) = []
list_in dec (int n) = []
list_in dec (float n) = []
list_in dec (boolean b) = []
list_in dec (array xs) = all_in dec xs
list_in dec (typed_array xs) = all_in dec xs
list_in dec (object fs) = []

abbrev pub text_at : Option Json → String
text_at none = ""
text_at (some v) = text_in v

abbrev pub number_at : Option Json → ℤ
number_at none = pos 0
number_at (some v) = number_in v

abbrev pub flag_at : Option Json → Bool
flag_at none = false
flag_at (some v) = flag_in v

abbrev pub list_at {ℓ} : {A : Type ℓ} → (Json → A) → Option Json → List A
list_at dec none = []
list_at dec (some v) = list_in dec v

abbrev limit_at : Option Json → Option LimitSpec
limit_at none = none
limit_at (some v) = some (record { tif = text_at (get "tif" (fields_in v)) })

abbrev trigger_at : Option Json → Option TriggerWire
trigger_at none = none
trigger_at (some v) = some (record {
  is_market = flag_at (get "isMarket" (fields_in v));
  trigger_px = text_at (get "triggerPx" (fields_in v));
  tp_sl = text_at (get "tpsl" (fields_in v));
})

abbrev fields_at : Option Json → Fields
fields_at none = end
fields_at (some v) = fields_in v

abbrev decode_type : Fields → OrderType
decode_type fs = record {
  limit = limit_at (get "limit" fs);
  trigger = trigger_at (get "trigger" fs);
}

abbrev pub decode_order : Json → OrderWire
decode_order v =
    let fs = fields_in v in
    record {
      a = number_at (get "a" fs);
      b = flag_at (get "b" fs);
      p = text_at (get "p" fs);
      s = text_at (get "s" fs);
      r = flag_at (get "r" fs);
      t = decode_type (fields_at (get "t" fs));
      c = text_at (get "c" fs);
    }

abbrev pub decode_cancel : Json → CancelSpec
decode_cancel v = record {
  a = number_at (get "a" (fields_in v));
  o = number_at (get "o" (fields_in v));
}

abbrev pub decode_cancel_cloid : Json → CancelCloidSpec
decode_cancel_cloid v = record {
  asset = number_at (get "asset" (fields_in v));
  cloid = text_at (get "cloid" (fields_in v));
}

abbrev order_at : Option Json → OrderWire
order_at none = decode_order (object end)
order_at (some v) = decode_order v

abbrev pub decode_modify : Json → ModifySpec
decode_modify v = record {
  oid = number_at (get "oid" (fields_in v));
  order = order_at (get "order" (fields_in v));
}

-- A text that is left out when it is empty.
pub text_at-field_if :
    (key s : String) (fs : Fields)
    → str_eq key key ≡ true
    → get key fs ≡ none
    → text_at (get key (field_if (not (str_eq s "")) key (string s) fs)) ≡ s
text_at-field_if key s fs same absent = elim (Bool-cases (str_eq s "")) [
  | inl empty ↦ ground (arith, eq_iff s "")
  | inr full ↦ rw (full, same) refl
]

decode_type_lem :
    (limit : Option LimitSpec) (trigger : Option TriggerWire)
    → decode_type (limit_fields limit (trigger_fields trigger end))
      ≡ record { limit = limit; trigger = trigger }
decode_type_lem none none = refl
decode_type_lem none (some t) = refl
decode_type_lem (some l) none = refl
decode_type_lem (some l) (some t) = refl

-- The parts of a step with their numbers as float64 holds them.
abbrev pub rounded_order : OrderWire → OrderWire
rounded_order o = record o { a = to_float64 o.a }

abbrev pub rounded_cancel : CancelSpec → CancelSpec
rounded_cancel c = record { a = to_float64 c.a; o = to_float64 c.o }

abbrev pub rounded_cancel_cloid : CancelCloidSpec → CancelCloidSpec
rounded_cancel_cloid c = record c { asset = to_float64 c.asset }

abbrev pub rounded_modify : ModifySpec → ModifySpec
rounded_modify m = record { oid = to_float64 m.oid; order = rounded_order m.order }

pub decode_order-order_json : (o : OrderWire) → decode_order (order_json o) ≡ rounded_order o
unfolding order_json
decode_order-order_json o =
    rw (decode_type_lem o.t.limit o.t.trigger, text_at-field_if "c" o.c end refl refl) refl

pub decode_cancel-cancel_json : (c : CancelSpec) → decode_cancel (cancel_json c) ≡ rounded_cancel c
unfolding cancel_json
decode_cancel-cancel_json c = refl

pub decode_cancel_cloid-cancel_cloid_json :
    (c : CancelCloidSpec) → decode_cancel_cloid (cancel_cloid_json c) ≡ rounded_cancel_cloid c
unfolding cancel_cloid_json
decode_cancel_cloid-cancel_cloid_json c = refl

pub decode_modify-modify_json : (m : ModifySpec) → decode_modify (modify_json m) ≡ rounded_modify m
unfolding modify_json
decode_modify-modify_json m = rw (decode_order-order_json m.order) refl

pub all_in-items {ℓ} :
    {A : Type ℓ} (f : A → Json) (dec : Json → A) (g : A → A) (xs : List A)
    → ((x : A) → dec (f x) ≡ g x)
    → all_in dec (items f xs) ≡ map g xs
unfolding items
all_in-items f dec g [] h = refl
all_in-items f dec g (x ∷ xs) h = rw (h x, all_in-items f dec g xs h) refl
