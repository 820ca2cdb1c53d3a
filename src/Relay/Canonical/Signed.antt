-- ===== src/Relay/Canonical/Signed.antt =====
-- What the signed encoding of internal/relay/canonical.go determines of an instruction, and why that
-- is enough for its execution.
use degenbox_hyperliquid_cli.Hyperliquid.Exchange.{Transport}
use degenbox_hyperliquid_cli.Relay.Types.{
  ExecutionStep, ExecutionInstruction, Action, update_leverage, place_order, cancel_by_cloid,
  cancel_by_oid, modify_order, unknown_action, action_of,
}
use degenbox_hyperliquid_cli.Relay.Executor.{
  execute_step, execute_action, execute_place_order, execute_modify_order, failed, succeeded,
  plain_result, place_order_result,
}
use degenbox_hyperliquid_cli.Relay.Canonical.{
  Json, string, typed_array, Fields, end, field, field_if, items, step_json, instruction_json,
}
use degenbox_hyperliquid_cli.Relay.Canonical.Decode.{
  get, fields_in, all_in, text_at, list_at, text_at-field_if, rounded_order, rounded_cancel,
  rounded_cancel_cloid, rounded_modify,
}
use degenbox_hyperliquid_cli.Relay.Canonical.Covers.{
  get-field_if, covered, rounded, read_part, covered_instruction, decode_step,
  decode_step-step_json,
}
use degenbox_hyperliquid_cli.Float.Integers.{to_float64-exact, IsExact}
use degenbox_hyperliquid_cli.Hyperliquid.Types.{OrderWire, CancelCloidSpec, CancelSpec, ModifySpec}
use degenbox_hyperliquid_cli.Base.{
  All, ◌≡◌, refl, sym, ap, ◌∙◌, ◌≢◌, inl, inr, false, not, List, [], ◌∷◌, map, arith, Bool-cases,
  String, str_eq,
}
use degenbox_hyperliquid_cli.Base.Int.{ℤ, pos}

abbrev decode_instruction : Json → ExecutionInstruction
decode_instruction v =
    let fs = fields_in v in
    record {
      instruction_id = text_at (get "instruction_id" fs);
      signal_id = text_at (get "signal_id" fs);
      intent_id = text_at (get "intent_id" fs);
      market = text_at (get "market" fs);
      steps = list_at decode_step (get "steps" fs);
      signature = "";
    }

steps_read :
    (steps : List ExecutionStep) → all_in decode_step (items step_json steps) ≡ map covered steps
unfolding items
steps_read [] = refl
steps_read (step ∷ steps) = rw (decode_step-step_json step, steps_read steps) refl

module _ (instr : ExecutionInstruction) where
  abbrev f3 : Fields
  f3 = field "steps" (typed_array (items step_json instr.steps)) end

  abbrev f2 : Fields
  f2 = field_if (not (str_eq instr.intent_id "")) "intent_id" (string instr.intent_id) f3

  abbrev f1 : Fields
  f1 = field_if (not (str_eq instr.signal_id "")) "signal_id" (string instr.signal_id) f2

  to_f2 : (key : String) → str_eq "signal_id" key ≡ false → get key f1 ≡ get key f2
  to_f2 key h =
      get-field_if key "signal_id" (not (str_eq instr.signal_id "")) (string instr.signal_id) f2 h

  to_f3 : (key : String) → str_eq "intent_id" key ≡ false → get key f2 ≡ get key f3
  to_f3 key h =
      get-field_if key "intent_id" (not (str_eq instr.intent_id "")) (string instr.intent_id) f3 h

  signal_read : text_at (get "signal_id" f1) ≡ instr.signal_id
  signal_read = text_at-field_if "signal_id" instr.signal_id f2 refl (to_f3 "signal_id" refl)

  intent_read : text_at (get "intent_id" f1) ≡ instr.intent_id
  intent_read =
      ap text_at (to_f2 "intent_id" refl)
      ∙ text_at-field_if "intent_id" instr.intent_id f3 refl refl

  decode_instruction-instruction_json :
      decode_instruction (instruction_json instr) ≡ covered_instruction instr
  unfolding instruction_json
  decode_instruction-instruction_json =
      rw (signal_read, intent_read, to_f2 "steps" refl, to_f3 "steps" refl, steps_read instr.steps)
        refl

-- Two instructions whose encodings for the signature are the same tree are the same, but for the
-- signature itself, for the asset, the leverage and the margin mode of steps that do not update a
-- leverage, and for what the integers of orders, cancels and modifications lose as float64.
pub signed_determines :
    (a b : ExecutionInstruction)
    → instruction_json a ≡ instruction_json b
    → covered_instruction a ≡ covered_instruction b
signed_determines a b same =
    sym (decode_instruction-instruction_json a)
    ∙ ap decode_instruction same
    ∙ decode_instruction-instruction_json b

action_of_other : (s : String) → str_eq s "update_leverage" ≡ false → action_of s ≢ update_leverage
unfolding action_of
action_of_other s other e = ground arith

execute_action_blank :
    (tr : Transport) (action : Action) (now last : ℤ) (step : ExecutionStep)
    → action ≢ update_leverage
    → execute_action tr action now last
        (record step { asset = pos 0; leverage = pos 0; is_cross = false })
      ≡ execute_action tr action now last step
unfolding execute_action execute_place_order execute_modify_order place_order_result plain_result
    failed succeeded
execute_action_blank tr update_leverage now last step h = absurd (h refl)
execute_action_blank tr place_order now last step h = ground arith
execute_action_blank tr cancel_by_cloid now last step h = ground arith
execute_action_blank tr cancel_by_oid now last step h = ground arith
execute_action_blank tr modify_order now last step h = ground arith
execute_action_blank tr unknown_action now last step h = refl

execute_step-read_part :
    (tr : Transport) (now last : ℤ) (step : ExecutionStep)
    → execute_step tr now last (read_part step) ≡ execute_step tr now last step
unfolding execute_step
execute_step-read_part tr now last step = elim (Bool-cases (str_eq step.action "update_leverage")) [
  | inl lev ↦ rw lev refl
  | inr other ↦ rw other (
      execute_action_blank tr (action_of step.action) now last step
        (action_of_other step.action other))
]

-- A step whose integers in orders, cancels and modifications are below 2 ^ 53.
abbrev pub IsExactStep : ExecutionStep → Type 0
IsExactStep step =
    All (λ (o : OrderWire). IsExact o.a) step.orders
    × All (λ (c : CancelCloidSpec). IsExact c.asset) step.cancels
    × All (λ (c : CancelSpec). IsExact c.a × IsExact c.o) step.oid_cancels
    × All (λ (m : ModifySpec). IsExact m.oid × IsExact m.order.a) step.modifications

map-same :
    {A : Type 0} (P : A → Type 0) (g : A → A) (xs : List A)
    → ((x : A) → P x → g x ≡ x)
    → All P xs
    → map g xs ≡ xs
map-same P g [] h all = refl
map-same P g (x ∷ xs) h all = rw (h x all.0, map-same P g xs h all.1) refl

rounded-same : (step : ExecutionStep) → IsExactStep step → rounded step ≡ step
rounded-same step (orders, cancels, oids, mods) =
    rw
      (
        map-same _ rounded_order step.orders (λ o h. rw (to_float64-exact o.a h) refl) orders,
        map-same _ rounded_cancel_cloid step.cancels (λ c h. rw (to_float64-exact c.asset h) refl)
            cancels,
        map-same _ rounded_cancel step.oid_cancels
            (λ c h. rw (to_float64-exact c.a h.0, to_float64-exact c.o h.1) refl) oids,
        map-same _ rounded_modify step.modifications
            (λ m h. rw (to_float64-exact m.oid h.0, to_float64-exact m.order.a h.1) refl) mods,
      )
      refl

execute_step-covered :
    (tr : Transport) (now last : ℤ) (step : ExecutionStep)
    → IsExactStep step
    → execute_step tr now last (covered step) ≡ execute_step tr now last step
execute_step-covered tr now last step exact =
    ap (λ s. execute_step tr now last (read_part s)) (rounded-same step exact)
    ∙ execute_step-read_part tr now last step

executed :
    (tr : Transport) (now last : ℤ) (steps : List ExecutionStep)
    → All IsExactStep steps
    → map (execute_step tr now last) (map covered steps) ≡ map (execute_step tr now last) steps
executed tr now last [] exact = refl
executed tr now last (step ∷ steps) exact =
    rw (execute_step-covered tr now last step exact.0, executed tr now last steps exact.1) refl

-- Two instructions whose encodings for the signature are the same tree are executed alike: step by
-- step, at any time and from any last nonce, the requests that their execution makes have the same
-- result and leave the same nonce. The integers in their orders, cancels and modifications are below
-- 2 ^ 53, which float64 holds.
pub signed_execution :
    (tr : Transport) (now last : ℤ) (a b : ExecutionInstruction)
    → All IsExactStep a.steps
    → All IsExactStep b.steps
    → instruction_json a ≡ instruction_json b
    → map (execute_step tr now last) a.steps ≡ map (execute_step tr now last) b.steps
signed_execution tr now last a b exact_a exact_b same =
    sym (executed tr now last a.steps exact_a)
    ∙ ap (λ (i : ExecutionInstruction). map (execute_step tr now last) i.steps)
        (signed_determines a b same)
    ∙ executed tr now last b.steps exact_b
