-- ===== src/Relay/Canonical/Sorted.antt =====
-- `sortedStringify` of internal/relay/canonical.go against `json.Marshal`.
use degenbox_hyperliquid_cli.Relay.Canonical.{
  Json, string, int, float, boolean, array, typed_array, object, Items, nil, cons, Fields, end,
  field, JsonText, marshal, marshal_items, marshal_fields, sorted_stringify, stringify_items,
  stringify_fields,
}
use degenbox_hyperliquid_cli.Base.{◌≡◌, refl}

module _ (jt : JsonText) where
  mutual
    unfolding marshal marshal_items marshal_fields sorted_stringify stringify_items stringify_fields

    same : (v : Json) → sorted_stringify jt v ≡ marshal jt v
    same (string s) = refl
    same (int n) = refl
    same (float n) = refl
    same (boolean b) = refl
    same (array xs) = rw (same_items xs) refl
    same (typed_array xs) = refl
    same (object fs) = rw (same_fields fs) refl

    same_items : (xs : Items) → stringify_items jt xs ≡ marshal_items jt xs
    same_items nil = refl
    same_items (cons x xs) = rw (same x, same_items xs) refl

    same_fields : (fs : Fields) → stringify_fields jt fs ≡ marshal_fields jt fs
    same_fields end = refl
    same_fields (field k v fs) = rw (same v, same_fields fs) refl

  -- Writing a value key by key in the order of the keys gives the text that json.Marshal gives.
  pub sorted_stringify-marshal : (v : Json) → sorted_stringify jt v ≡ marshal jt v
  sorted_stringify-marshal v = same v
