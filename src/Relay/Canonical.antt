-- ===== src/Relay/Canonical.antt =====
-- internal/relay/canonical.go: the text of an instruction that the server signs.
-- A Go map is a list of fields in any order. How encoding/json writes a string and a float64 is a
-- parameter; no value here is one that it refuses.
pub mod Sorted
pub mod Order
pub mod Reordered
pub mod Decode
pub mod Covers
pub mod Signed
use Prim.Native.String.{◌++◌ as str_append, compare}
use text.Mathlib.Text.{is_lt}
use degenbox_hyperliquid_cli.Hyperliquid.Types.{
  CancelSpec, CancelCloidSpec, LimitSpec, OrderWire, ModifySpec, TriggerWire,
}
use degenbox_hyperliquid_cli.Float.Integers.{to_float64}
use degenbox_hyperliquid_cli.Relay.Messages.{format_int}
use degenbox_hyperliquid_cli.Relay.Types.{ExecutionStep, ExecutionInstruction}
use degenbox_hyperliquid_cli.Base.{
  Bool, true, not, Option, none, some, List, [], ◌∷◌, map, if◌then◌else◌, String, str_eq,
}
use degenbox_hyperliquid_cli.Base.Int.{ℤ}

-- `float` is a float64 that is an integer, as `toGeneric` makes it of one; `typed_array` a `[]map[string]any`, which
-- is not a `[]any`.
mutual
  pub data Json : Type 0 where
    string : String → Json
    int float : ℤ → Json
    boolean : Bool → Json
    array typed_array : Items → Json
    object : Fields → Json

  pub data Items : Type 0 where
    nil : Items
    cons : Json → Items → Items

  pub data Fields : Type 0 where
    end : Fields
    field : String → Json → Fields → Fields

-- A field that is set only under a condition.
abbrev pub field_if : Bool → String → Json → Fields → Fields
field_if b key value fields = if b then field key value fields else fields

unfoldable pub items {ℓ} : {A : Type ℓ} → (A → Json) → List A → Items
items f [] = nil
items f (x ∷ xs) = cons (f x) (items f xs)

abbrev limit_fields : Option LimitSpec → Fields → Fields
limit_fields none fields = fields
limit_fields (some limit) fields =
    field "limit" (object (field "tif" (string limit.tif) end)) fields

abbrev trigger_fields : Option TriggerWire → Fields → Fields
trigger_fields none fields = fields
trigger_fields (some trigger) fields =
    field "trigger"
      (object (
        field "isMarket" (boolean trigger.is_market) (
          field "triggerPx" (string trigger.trigger_px) (field "tpsl" (string trigger.tp_sl) end))))
      fields

-- `toGeneric` on an order, by the tags of its struct.
unfoldable pub order_json : OrderWire → Json
order_json o = object (
    field "a" (float (to_float64 o.a)) (
      field "b" (boolean o.b) (
        field "p" (string o.p) (
          field "s" (string o.s) (
            field "r" (boolean o.r) (
              field "t" (object (limit_fields o.t.limit (trigger_fields o.t.trigger end)))
                (field_if (not (str_eq o.c "")) "c" (string o.c) end)))))))

unfoldable pub cancel_json : CancelSpec → Json
cancel_json c = object (field "a" (float (to_float64 c.a)) (field "o" (float (to_float64 c.o)) end))

unfoldable pub cancel_cloid_json : CancelCloidSpec → Json
cancel_cloid_json c =
    object (field "asset" (float (to_float64 c.asset)) (field "cloid" (string c.cloid) end))

unfoldable pub modify_json : ModifySpec → Json
modify_json m =
    object (field "oid" (float (to_float64 m.oid)) (field "order" (order_json m.order) end))

-- A field with a list that is set if the list is not empty.
abbrev pub field_list {ℓ} : {A : Type ℓ} → String → (A → Json) → List A → Fields → Fields
field_list key f [] fields = fields
field_list key f (x ∷ xs) fields = field key (array (items f (x ∷ xs))) fields

-- The fields of a leverage.
abbrev pub leverage_fields : ExecutionStep → Fields → Fields
leverage_fields step fields =
    if str_eq step.action "update_leverage"
    then field "asset" (int step.asset) (
        field "leverage" (int step.leverage)
          (field_if step.is_cross "is_cross" (boolean true) fields))
    else fields

-- The map of a step.
unfoldable pub step_json : ExecutionStep → Json
step_json step = object (
    field "action" (string step.action) (
      field_list "orders" order_json step.orders (
        field_if (not (str_eq step.grouping "")) "grouping" (string step.grouping) (
          field_list "cancels" cancel_cloid_json step.cancels (
            leverage_fields step (
              field_list "modifications" modify_json step.modifications
                (field_list "oid_cancels" cancel_json step.oid_cancels end)))))))

-- The map of an instruction.
unfoldable pub instruction_json : ExecutionInstruction → Json
instruction_json instr = object (
    field "instruction_id" (string instr.instruction_id) (
      field "market" (string instr.market) (
        field_if (not (str_eq instr.signal_id "")) "signal_id" (string instr.signal_id) (
          field_if (not (str_eq instr.intent_id "")) "intent_id" (string instr.intent_id)
            (field "steps" (typed_array (items step_json instr.steps)) end)))))

-- How encoding/json writes a string and a float64 that is an integer.
pub record JsonText : Type 0 where
  pub quote : String → String
  pub float_text : ℤ → String

-- `strings.Join(parts, ",")`.
unfoldable pub join : List String → String
join [] = ""
join (s ∷ []) = s
join (s ∷ t ∷ rest) = str_append s (str_append "," (join (t ∷ rest)))

-- `sort.Strings` on the keys, with what is written for each.
unfoldable pub insert_key : String × String → List (String × String) → List (String × String)
insert_key e [] = e ∷ []
insert_key e (f ∷ fs) =
    let rest = insert_key e fs in if is_lt (compare f.0 e.0) then f ∷ rest else e ∷ f ∷ fs

unfoldable pub sort_keys : List (String × String) → List (String × String)
sort_keys [] = []
sort_keys (e ∷ es) = insert_key e (sort_keys es)

abbrev pub braces : List (String × String) → String
braces parts = str_append "{" (str_append (join (map (λ e. e.1) (sort_keys parts))) "}")

abbrev pub brackets : List String → String
brackets parts = str_append "[" (str_append (join parts) "]")

abbrev pub bool_text : Bool → String
bool_text b = if b then "true" else "false"

module _ (jt : JsonText) where
  open jt use {quote, float_text}

  unfoldable mutual
    -- `json.Marshal`, which writes the keys of a map in order.
    pub marshal : Json → String
    marshal (string s) = quote s
    marshal (int n) = format_int n
    marshal (float n) = float_text n
    marshal (boolean b) = bool_text b
    marshal (array xs) = brackets (marshal_items xs)
    marshal (typed_array xs) = brackets (marshal_items xs)
    marshal (object fs) = braces (marshal_fields fs)

    pub marshal_items : Items → List String
    marshal_items nil = []
    marshal_items (cons x xs) = marshal x ∷ marshal_items xs

    pub marshal_fields : Fields → List (String × String)
    marshal_fields end = []
    marshal_fields (field k v fs) =
        (k, str_append (quote k) (str_append ":" (marshal v))) ∷ marshal_fields fs

  unfoldable mutual
    -- `sortedStringify`.
    pub sorted_stringify : Json → String
    sorted_stringify (string s) = marshal (string s)
    sorted_stringify (int n) = marshal (int n)
    sorted_stringify (float n) = marshal (float n)
    sorted_stringify (boolean b) = marshal (boolean b)
    sorted_stringify (array xs) = brackets (stringify_items xs)
    sorted_stringify (typed_array xs) = marshal (typed_array xs)
    sorted_stringify (object fs) = braces (stringify_fields fs)

    pub stringify_items : Items → List String
    stringify_items nil = []
    stringify_items (cons x xs) = sorted_stringify x ∷ stringify_items xs

    pub stringify_fields : Fields → List (String × String)
    stringify_fields end = []
    stringify_fields (field k v fs) =
        (k, str_append (marshal (string k)) (str_append ":" (sorted_stringify v)))
        ∷ stringify_fields fs

  -- `instructionCanonical`: nothing that it encodes is refused by encoding/json.
  unfoldable pub instruction_canonical : ExecutionInstruction → Option String
  instruction_canonical instr = some (sorted_stringify (instruction_json instr))
