-- ===== src/Bot/EnvFile.antt =====
-- cmd/bot/cmd_setup.go and view_edit.go: the file .env that keeps the settings of the relay. Texts are
-- code points. A Go map is the list of its insertions, the newest first; the order in which `range`
-- gives its entries is a parameter.
pub mod RoundTrip
pub mod Saved
use degenbox_hyperliquid_cli.Text.{codes}
use degenbox_hyperliquid_cli.Text.Space.{same_codes}
use degenbox_hyperliquid_cli.Text.Trim.{trim, is_empty, split_lines}
use degenbox_hyperliquid_cli.Base.{
  ℕ, Bool, true, false, not, ◌&&◌, ◌||◌, Option, none, some, List, [], ◌∷◌, ◌++◌, map, ◌==◌,
  if◌then◌else◌,
}

abbrev pub Setting : Type 0
Setting = List ℕ × List ℕ

abbrev pub EnvMap : Type 0
EnvMap = List Setting

abbrev pub env_lookup : List ℕ → EnvMap → Option (List ℕ)
env_lookup k [] = none
env_lookup k (e ∷ m) = let rest = env_lookup k m in if same_codes k e.0 then some e.1 else rest

-- The map after the entries are inserted in turn.
abbrev pub insert_all : EnvMap → List Setting → EnvMap
insert_all m [] = m
insert_all m (e ∷ es) = insert_all (e ∷ m) es

-- `strings.SplitN(line, "=", 2)`, where it gives two parts.
unfoldable pub split_pair : List ℕ → Option Setting
split_pair [] = none
split_pair (c ∷ s) =
    let rest = split_pair s in
    if c == 61 then some ([], s) else elim rest [ none ↦ none | some e ↦ some (c ∷ e.0, e.1) ]

abbrev pub is_comment : List ℕ → Bool
is_comment [] = false
is_comment (c ∷ s) = c == 35

-- The entry of a line of the file.
unfoldable pub parse_line : List ℕ → Option Setting
parse_line line =
    if is_empty (trim line) || is_comment (trim line) then none else split_pair (trim line)

unfoldable pub read_lines : EnvMap → List (List ℕ) → EnvMap
read_lines m [] = m
read_lines m (line ∷ lines) = elim (parse_line line) [
  | none ↦ read_lines m lines
  | some e ↦ read_lines (e ∷ m) lines
]

-- `readEnvFile`, of the content of the file where it can be read.
unfoldable pub read_env_file : Option (List ℕ) → EnvMap
unfolding read_lines
read_env_file none = []
read_env_file (some content) = read_lines [] (split_lines content)

-- `fmt.Sprintf("%s=%s", k, v)`.
abbrev pub entry_line : Setting → List ℕ
entry_line e = e.0 ++ 61 ∷ e.1

-- `strings.Join(lines, "\n") + "\n"`, of the lines of the entries.
unfoldable pub env_text : List Setting → List ℕ
env_text [] = 10 ∷ []
env_text (e ∷ []) = entry_line e ++ 10 ∷ []
env_text (e ∷ e' ∷ es) = entry_line e ++ 10 ∷ env_text (e' ∷ es)

-- `strings.HasPrefix`.
abbrev pub starts : List ℕ → List ℕ → Bool
starts [] s = true
starts (c ∷ prefix) [] = false
starts (c ∷ prefix) (d ∷ s) = let rest = starts prefix s in if c == d then rest else false

-- The map without the keys that start with "HL_RELAY_".
unfoldable pub remove_relay : EnvMap → EnvMap
remove_relay [] = []
remove_relay (e ∷ m) =
    let rest = remove_relay m in if starts (codes "HL_RELAY_") e.0 then rest else e ∷ rest

-- The entries of `updateRelay`: the address of the relay, the key and the id in decimal.
abbrev pub relay_entries : List ℕ → List ℕ → List ℕ → List Setting
relay_entries url api_key client_id =
    (codes "HL_RELAY_URL", url)
    ∷ (codes "HL_RELAY_API_KEY", api_key)
    ∷ (codes "HL_RELAY_CLIENT_ID", client_id)
    ∷ []

module _ (range : EnvMap → List Setting) where
  -- The content that `saveAPIKeyToEnv` writes.
  unfoldable pub save_api_key_to_env : List ℕ → Option (List ℕ) → List ℕ
  save_api_key_to_env api_key file =
      env_text (range ((codes "HL_RELAY_API_KEY", api_key) ∷ read_env_file file))

  -- The content that `updateRelay` writes.
  unfoldable pub update_relay_env : List ℕ → List ℕ → List ℕ → Option (List ℕ) → List ℕ
  update_relay_env url api_key client_id file =
      env_text (range (remove_relay (read_env_file file)) ++ relay_entries url api_key client_id)
