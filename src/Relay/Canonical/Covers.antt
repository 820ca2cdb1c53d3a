-- ===== src/Relay/Canonical/Covers.antt =====
-- What the signed encoding of internal/relay/canonical.go covers of a step.
use degenbox_hyperliquid_cli.Relay.Canonical.{
  Json, string, boolean, Fields, end, field_if, order_json, cancel_json, cancel_cloid_json,
  modify_json, field_list, leverage_fields, step_json,
}
use degenbox_hyperliquid_cli.Relay.Canonical.Decode.{
  get, fields_in, text_at, number_at, flag_at, list_at, decode_order, decode_cancel, rounded_order,
  rounded_cancel, rounded_cancel_cloid, rounded_modify, decode_cancel_cloid, decode_modify,
  text_at-field_if, decode_order-order_json, decode_cancel-cancel_json,
  decode_cancel_cloid-cancel_cloid_json, decode_modify-modify_json, all_in-items,
}
use degenbox_hyperliquid_cli.Relay.Types.{ExecutionStep, ExecutionInstruction}
use degenbox_hyperliquid_cli.Base.{
  ◌≡◌, refl, ap, ◌∙◌, inl, inr, Bool, true, false, not, none, List, [], ◌∷◌, map, if◌then◌else◌,
  Bool-cases, String, str_eq,
}
use degenbox_hyperliquid_cli.Base.Int.{pos}

get-field_list {ℓ} :
    {A : Type ℓ} (key key' : String) (f : A → Json) (xs : List A) (fs : Fields)
    → str_eq key' key ≡ false
    → get key (field_list key' f xs fs) ≡ get key fs
get-field_list key key' f [] fs h = refl
get-field_list key key' f (x ∷ xs) fs h = rw h refl

pub get-field_if :
    (key key' : String) (b : Bool) (v : Json) (fs : Fields)
    → str_eq key' key ≡ false
    → get key (field_if b key' v fs) ≡ get key fs
get-field_if key key' true v fs h = rw h refl
get-field_if key key' false v fs h = refl

list_at-field_list {ℓ} :
    {A : Type ℓ} (key : String) (f : A → Json) (dec : Json → A) (g : A → A) (xs : List A)
    (fs : Fields)
    → str_eq key key ≡ true
    → get key fs ≡ none
    → ((x : A) → dec (f x) ≡ g x)
    → list_at dec (get key (field_list key f xs fs)) ≡ map g xs
list_at-field_list key f dec g [] fs same absent h = rw absent refl
list_at-field_list key f dec g (x ∷ xs) fs same absent h = rw same (all_in-items f dec g (x ∷ xs) h)

get-leverage_fields :
    (key : String) (step : ExecutionStep) (fs : Fields)
    → str_eq "asset" key ≡ false
    → str_eq "leverage" key ≡ false
    → str_eq "is_cross" key ≡ false
    → get key (leverage_fields step fs) ≡ get key fs
get-leverage_fields key step fs a l i = elim (Bool-cases (str_eq step.action "update_leverage")) [
  | inl lev ↦ rw (lev, a, l) (get-field_if key "is_cross" step.is_cross (boolean true) fs i)
  | inr other ↦ rw other refl
]

flag_at-field_if :
    (b : Bool) (fs : Fields)
    → get "is_cross" fs ≡ none
    → flag_at (get "is_cross" (field_if b "is_cross" (boolean true) fs)) ≡ b
flag_at-field_if true fs h = refl
flag_at-field_if false fs h = rw h refl

-- A step with the numbers of its lists as float64 holds them.
abbrev pub rounded : ExecutionStep → ExecutionStep
rounded step = record step {
  orders = map rounded_order step.orders;
  cancels = map rounded_cancel_cloid step.cancels;
  oid_cancels = map rounded_cancel step.oid_cancels;
  modifications = map rounded_modify step.modifications;
}

-- A step without the asset, the leverage and the margin mode, unless it updates a leverage.
abbrev pub read_part : ExecutionStep → ExecutionStep
read_part step =
    if str_eq step.action "update_leverage"
    then step
    else record step { asset = pos 0; leverage = pos 0; is_cross = false }

abbrev pub covered : ExecutionStep → ExecutionStep
covered step = read_part (rounded step)

abbrev pub covered_instruction : ExecutionInstruction → ExecutionInstruction
covered_instruction instr = record instr { steps = map covered instr.steps; signature = "" }

abbrev pub decode_step : Json → ExecutionStep
decode_step v =
    let fs = fields_in v in
    record {
      action = text_at (get "action" fs);
      orders = list_at decode_order (get "orders" fs);
      grouping = text_at (get "grouping" fs);
      cancels = list_at decode_cancel_cloid (get "cancels" fs);
      oid_cancels = list_at decode_cancel (get "oid_cancels" fs);
      asset = number_at (get "asset" fs);
      leverage = number_at (get "leverage" fs);
      is_cross = flag_at (get "is_cross" fs);
      modifications = list_at decode_modify (get "modifications" fs);
    }

module _ (step : ExecutionStep) where
  abbrev r6 : Fields
  r6 = field_list "oid_cancels" cancel_json step.oid_cancels end

  abbrev r5 : Fields
  r5 = field_list "modifications" modify_json step.modifications r6

  abbrev r4 : Fields
  r4 = leverage_fields step r5

  abbrev r3 : Fields
  r3 = field_list "cancels" cancel_cloid_json step.cancels r4

  abbrev r2 : Fields
  r2 = field_if (not (str_eq step.grouping "")) "grouping" (string step.grouping) r3

  abbrev r1 : Fields
  r1 = field_list "orders" order_json step.orders r2

  to_r5 :
      (key : String)
      → str_eq "modifications" key ≡ false
      → str_eq "oid_cancels" key ≡ false
      → get key r5 ≡ none
  to_r5 key m o =
      get-field_list key "modifications" modify_json step.modifications r6 m
      ∙ get-field_list key "oid_cancels" cancel_json step.oid_cancels end o

  r1_to_r3 :
      (key : String)
      → str_eq "orders" key ≡ false
      → str_eq "grouping" key ≡ false
      → get key r1 ≡ get key r3
  r1_to_r3 key o g =
      get-field_list key "orders" order_json step.orders r2 o
      ∙ get-field_if key "grouping" (not (str_eq step.grouping "")) (string step.grouping) r3 g

  r3_to_r4 : (key : String) → str_eq "cancels" key ≡ false → get key r3 ≡ get key r4
  r3_to_r4 key c = get-field_list key "cancels" cancel_cloid_json step.cancels r4 c

  r3_to_r5 :
      (key : String)
      → str_eq "cancels" key ≡ false
      → str_eq "asset" key ≡ false
      → str_eq "leverage" key ≡ false
      → str_eq "is_cross" key ≡ false
      → get key r3 ≡ get key r5
  r3_to_r5 key c a l i = r3_to_r4 key c ∙ get-leverage_fields key step r5 a l i

  orders_read : list_at decode_order (get "orders" r1) ≡ map rounded_order step.orders
  orders_read =
      list_at-field_list "orders" order_json decode_order rounded_order step.orders r2 refl
        (get-field_if "orders" "grouping" (not (str_eq step.grouping "")) (string step.grouping) r3
            refl
          ∙ r3_to_r5 "orders" refl refl refl refl
          ∙ to_r5 "orders" refl refl)
        decode_order-order_json

  grouping_read : text_at (get "grouping" r1) ≡ step.grouping
  grouping_read =
      ap text_at (get-field_list "grouping" "orders" order_json step.orders r2 refl)
      ∙ text_at-field_if "grouping" step.grouping r3 refl
          (r3_to_r5 "grouping" refl refl refl refl ∙ to_r5 "grouping" refl refl)

  cancels_read :
      list_at decode_cancel_cloid (get "cancels" r1) ≡ map rounded_cancel_cloid step.cancels
  cancels_read =
      ap (list_at decode_cancel_cloid) (r1_to_r3 "cancels" refl refl)
      ∙ list_at-field_list "cancels" cancel_cloid_json decode_cancel_cloid rounded_cancel_cloid
          step.cancels r4 refl
          (get-leverage_fields "cancels" step r5 refl refl refl ∙ to_r5 "cancels" refl refl)
          decode_cancel_cloid-cancel_cloid_json

  modifications_read :
      list_at decode_modify (get "modifications" r1) ≡ map rounded_modify step.modifications
  modifications_read =
      ap (list_at decode_modify)
        (r1_to_r3 "modifications" refl refl ∙ r3_to_r5 "modifications" refl refl refl refl)
      ∙ list_at-field_list "modifications" modify_json decode_modify rounded_modify
          step.modifications r6 refl
          (get-field_list "modifications" "oid_cancels" cancel_json step.oid_cancels end refl)
          decode_modify-modify_json

  oid_cancels_read :
      list_at decode_cancel (get "oid_cancels" r1) ≡ map rounded_cancel step.oid_cancels
  oid_cancels_read =
      ap (list_at decode_cancel) (
        r1_to_r3 "oid_cancels" refl refl
        ∙ r3_to_r5 "oid_cancels" refl refl refl refl
        ∙ get-field_list "oid_cancels" "modifications" modify_json step.modifications r6 refl)
      ∙ list_at-field_list "oid_cancels" cancel_json decode_cancel rounded_cancel step.oid_cancels
          end refl refl decode_cancel-cancel_json

  leverage_read :
      (number_at (get "asset" r4) ≡ (covered step).asset)
      × (number_at (get "leverage" r4) ≡ (covered step).leverage)
      × (flag_at (get "is_cross" r4) ≡ (covered step).is_cross)
  leverage_read = elim (Bool-cases (str_eq step.action "update_leverage")) [
    | inl lev ↦ rw lev (refl, refl, flag_at-field_if step.is_cross r5 (to_r5 "is_cross" refl refl))
    | inr other ↦
        rw (other, to_r5 "asset" refl refl, to_r5 "leverage" refl refl, to_r5 "is_cross" refl refl)
          (refl, refl, refl)
  ]

  r1_to_r4 :
      (key : String)
      → str_eq "orders" key ≡ false
      → str_eq "grouping" key ≡ false
      → str_eq "cancels" key ≡ false
      → get key r1 ≡ get key r4
  r1_to_r4 key o g c = r1_to_r3 key o g ∙ r3_to_r4 key c

  covered_fields :
      record (rounded step) {
        asset = (covered step).asset;
        leverage = (covered step).leverage;
        is_cross = (covered step).is_cross;
      }
      ≡ covered step
  covered_fields = elim (Bool-cases (str_eq step.action "update_leverage")) [
    | inl lev ↦ rw lev refl
    | inr other ↦ rw other refl
  ]

  pub decode_step-step_json : decode_step (step_json step) ≡ covered step
  unfolding step_json
  decode_step-step_json =
      let (asset, leverage, is_cross) = leverage_read in
      rw
        (
          orders_read,
          grouping_read,
          cancels_read,
          oid_cancels_read,
          modifications_read,
          r1_to_r4 "asset" refl refl refl,
          r1_to_r4 "leverage" refl refl refl,
          r1_to_r4 "is_cross" refl refl refl,
          asset,
          leverage,
          is_cross,
        )
        covered_fields
