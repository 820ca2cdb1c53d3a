-- ===== src/Bot/EnvFile/Saved.antt =====
-- cmd/bot/cmd_setup.go and view_edit.go: what the file .env holds after the key of the relay, or its
-- settings, are saved.
use degenbox_hyperliquid_cli.Base.{
  ==_iff, ℕ, ◌≡◌, refl, sym, ap, ◌∙◌, Bool, true, false, ◌||◌, Option, none, some, List, [], ◌∷◌,
  ◌++◌, ◌==◌, if◌then◌else◌, inl, inr, Bool-cases, All, All-append, All-mono, arith,
}
use degenbox_hyperliquid_cli.Text.{codes}
use degenbox_hyperliquid_cli.Text.Space.{same_codes, is_space}
use degenbox_hyperliquid_cli.Text.Trim.{trim-same, is_empty}
use degenbox_hyperliquid_cli.Bot.EnvFile.{
  Setting, EnvMap, env_lookup, insert_all, split_pair, is_comment, parse_line, read_env_file,
  entry_line, remove_relay, relay_entries, starts, save_api_key_to_env, update_relay_env,
}
use degenbox_hyperliquid_cli.Bot.EnvFile.RoundTrip.{
  IsReadable, read_env_file-IsReadable, read_env_file-env_text,
}

-- A text without white space.
abbrev pub IsWord : List ℕ → Type 0
IsWord = All (λ c. is_space c ≡ false)

-- A name of a setting.
abbrev IsName : List ℕ → Type 0
IsName name = IsWord name × All (λ c. (c == 61) ≡ false) name × (is_comment name ≡ false)

split_pair-name :
    (name s : List ℕ)
    → All (λ c. (c == 61) ≡ false) name
    → split_pair (name ++ 61 ∷ s) ≡ some (name, s)
unfolding split_pair
split_pair-name [] s h = refl
split_pair-name (c ∷ name) s (h, hs) = rw (h, split_pair-name name s hs) refl

space_not_end : (c : ℕ) → is_space c ≡ false → (c == 10) ≡ false
space_not_end c h = ground (arith)

is_marked :
    (name s : List ℕ)
    → is_comment name ≡ false
    → (is_empty (name ++ 61 ∷ s) || is_comment (name ++ 61 ∷ s)) ≡ false
is_marked [] s h = refl
is_marked (c ∷ name) s h = h

entry_line-IsWord : (e : Setting) → IsWord e.0 → IsWord e.1 → IsWord (entry_line e)
entry_line-IsWord e h k = All-append _ e.0 (61 ∷ e.1) h (refl, k)

-- A name and a text without white space are read back.
word-IsReadable : (name s : List ℕ) → IsName name → IsWord s → IsReadable (name, s)
unfolding parse_line
word-IsReadable name s (h, n, m) k =
    let word = entry_line-IsWord (name, s) h k in
    (
      All-mono _ _ (entry_line (name, s)) space_not_end word,
      rw (trim-same (name ++ 61 ∷ s) word, is_marked name s m) (split_pair-name name s n),
    )

api_key-IsName : IsName (codes "HL_RELAY_API_KEY")
api_key-IsName = ground (arith)

url-IsName : IsName (codes "HL_RELAY_URL")
url-IsName = ground (arith)

client_id-IsName : IsName (codes "HL_RELAY_CLIENT_ID")
client_id-IsName = ground (arith)

insert_all-append :
    (m : EnvMap) (xs ys : List Setting) → insert_all m (xs ++ ys) ≡ insert_all (insert_all m xs) ys
insert_all-append m [] ys = refl
insert_all-append m (x ∷ xs) ys = insert_all-append (x ∷ m) xs ys

same_codes-eq : (s t : List ℕ) → same_codes s t ≡ true → s ≡ t
same_codes-eq [] [] h = refl
same_codes-eq [] (d ∷ t) h = absurd cc
same_codes-eq (c ∷ s) [] h = absurd cc
same_codes-eq (c ∷ s) (d ∷ t) h = elim (Bool-cases (c == d)) [
  | inl e ↦
      let q : same_codes (c ∷ s) (d ∷ t) ≡ same_codes s t = rw e refl in
      ap (λ x. x ∷ s) ((==_iff c d).0 e) ∙ ap (λ x. d ∷ x) (same_codes-eq s t (sym q ∙ h))
  | inr f ↦ let q : same_codes (c ∷ s) (d ∷ t) ≡ false = rw f refl in absurd cc
]

remove_relay-All : (P : Setting → Type 0) (m : EnvMap) → All P m → All P (remove_relay m)
unfolding remove_relay
remove_relay-All P [] h = h
remove_relay-All P (e ∷ m) (h, hs) = elim (Bool-cases (starts (codes "HL_RELAY_") e.0)) [
  | inl t ↦ rw t (remove_relay-All P m hs)
  | inr f ↦ rw f (h, remove_relay-All P m hs)
]

if_same {ℓ} : {A : Type ℓ} (b : Bool) (x : A) → x ≡ (if b then x else x)
if_same true x = refl
if_same false x = refl

env_lookup-remove_relay :
    (k : List ℕ) (m : EnvMap)
    → env_lookup k (remove_relay m)
      ≡ (if starts (codes "HL_RELAY_") k then none else env_lookup k m)
unfolding remove_relay
env_lookup-remove_relay k [] = if_same (starts (codes "HL_RELAY_") k) none
env_lookup-remove_relay k (e ∷ m) = elim (Bool-cases (same_codes k e.0)) [
  | inl s ↦
      let q = ap (starts (codes "HL_RELAY_")) (same_codes-eq k e.0 s) in
      elim (Bool-cases (starts (codes "HL_RELAY_") e.0)) [
        | inl t ↦ rw (t, s, q, t, env_lookup-remove_relay k m, q, t) refl
        | inr f ↦ rw (f, s, q, f) refl
      ]
  | inr n ↦ elim (Bool-cases (starts (codes "HL_RELAY_") e.0)) [
    | inl t ↦ rw (t, n) (env_lookup-remove_relay k m)
    | inr f ↦ rw (f, n) (env_lookup-remove_relay k m)
  ]
]

module _ (range : EnvMap → List Setting)
    (range-env_lookup : (m : EnvMap) (k : List ℕ)
      → env_lookup k (insert_all [] (range m)) ≡ env_lookup k m)
    (range-All : (P : Setting → Type 0) (m : EnvMap) → All P m → All P (range m)) where
  -- After a key without white space is saved, a reader of the file finds it, and under every other
  -- name what it found before; `range` gives the entries of a map, in any order.
  pub save_api_key_to_env_lem :
      (api_key : List ℕ) (file : Option (List ℕ)) (k : List ℕ)
      → IsWord api_key
      → env_lookup k (read_env_file (some (save_api_key_to_env range api_key file))) ≡ (
          if same_codes k (codes "HL_RELAY_API_KEY")
          then some api_key
          else env_lookup k (read_env_file file))
  unfolding save_api_key_to_env
  save_api_key_to_env_lem api_key file k h =
      let entry : Setting = (codes "HL_RELAY_API_KEY", api_key) in
      let readable =
        range-All IsReadable (entry ∷ read_env_file file)
          (word-IsReadable entry.0 api_key api_key-IsName h, read_env_file-IsReadable file) in
      ap (env_lookup k) (read_env_file-env_text _ readable)
      ∙ range-env_lookup (entry ∷ read_env_file file) k

  -- After the settings of the relay are saved, a reader of the file finds the three new ones, nothing
  -- else under a name that starts with HL_RELAY_, and under every other name what it found before.
  -- The settings are without white space; `range` gives the entries of a map, in any order.
  pub update_relay_env_lem :
      (url api_key client_id : List ℕ) (file : Option (List ℕ)) (k : List ℕ)
      → IsWord url
      → IsWord api_key
      → IsWord client_id
      → env_lookup k (read_env_file (some (update_relay_env range url api_key client_id file))) ≡ (
          if same_codes k (codes "HL_RELAY_CLIENT_ID")
          then some client_id
          else if same_codes k (codes "HL_RELAY_API_KEY")
          then some api_key
          else if same_codes k (codes "HL_RELAY_URL")
          then some url
          else if starts (codes "HL_RELAY_") k
          then none
          else env_lookup k (read_env_file file))
  unfolding update_relay_env
  update_relay_env_lem url api_key client_id file k hu ha hc =
      let kept = range (remove_relay (read_env_file file)) in
      let new = relay_entries url api_key client_id in
      let readable : All IsReadable (kept ++ new) =
        All-append IsReadable kept new
          (range-All IsReadable (remove_relay (read_env_file file))
            (remove_relay-All IsReadable (read_env_file file) (read_env_file-IsReadable file)))
          (
            word-IsReadable (codes "HL_RELAY_URL") url url-IsName hu,
            (
              word-IsReadable (codes "HL_RELAY_API_KEY") api_key api_key-IsName ha,
              (word-IsReadable (codes "HL_RELAY_CLIENT_ID") client_id client_id-IsName hc, tt),
            ),
          ) in
      ap (env_lookup k)
        (read_env_file-env_text (kept ++ new) readable ∙ insert_all-append [] kept new)
      ∙ rw (range-env_lookup (remove_relay (read_env_file file)) k)
          (rw (env_lookup-remove_relay k (read_env_file file)) refl)
