-- ===== src/Examples/Files.antt =====
-- The file .env at concrete contents. The order of `range` is that of the insertions.
use degenbox_hyperliquid_cli.Text.{codes}
use degenbox_hyperliquid_cli.Text.Trim.{trim, trim_left, trim_right, split_lines}
use degenbox_hyperliquid_cli.Bot.EnvFile.{
  Setting, EnvMap, env_lookup, insert_all, split_pair, parse_line, read_lines, read_env_file,
  save_api_key_to_env, update_relay_env,
}
use degenbox_hyperliquid_cli.Bot.EnvFile.Saved.{save_api_key_to_env_lem, update_relay_env_lem}
use degenbox_hyperliquid_cli.Base.{
  ◌≡◌, refl, ap, ◌∙◌, some, List, [], ◌∷◌, ◌++◌, ℕ, All, append-nil, Option, arith,
}

insert_all-insert_all :
    (acc b m : EnvMap) → insert_all acc (insert_all b m) ≡ insert_all (m ++ acc) b
insert_all-insert_all acc b [] = refl
insert_all-insert_all acc b (e ∷ m) = insert_all-insert_all acc (e ∷ b) m

range-env_lookup :
    (m : EnvMap) (k : List ℕ) → env_lookup k (insert_all [] (insert_all [] m)) ≡ env_lookup k m
range-env_lookup m k = ap (env_lookup k) (insert_all-insert_all [] [] m ∙ append-nil m)

insert_all-All :
    (P : Setting → Type 0) (acc m : EnvMap) → All P acc → All P m → All P (insert_all acc m)
insert_all-All P acc [] h k = h
insert_all-All P acc (e ∷ m) h (k, ks) = insert_all-All P (e ∷ acc) m (k, h) ks

range-All : (P : Setting → Type 0) (m : EnvMap) → All P m → All P (insert_all [] m)
range-All P m h = insert_all-All P [] m tt h

abbrev content : Option (List ℕ)
content = some (codes "# keys\nHL_PRIVATE_KEY=ab\n HL_RELAY_URL = x\n\nHL_RELAY_API_KEY=old\n")

abbrev wanted : List ℕ
wanted = codes "HL_PRIVATE_KEY"

found : env_lookup wanted (read_env_file content) ≡ some (codes "ab")
unfolding read_env_file read_lines parse_line split_pair split_lines trim trim_left trim_right
found = refl

save_api_key_to_env_example :
    env_lookup wanted
      (read_env_file (some (save_api_key_to_env (insert_all []) (codes "rk_1") content)))
    ≡ env_lookup wanted (read_env_file content)
save_api_key_to_env_example =
    save_api_key_to_env_lem (insert_all []) range-env_lookup range-All (codes "rk_1") content wanted
      (ground (arith))

update_relay_env_example :
    env_lookup wanted (
      read_env_file (
        some (
          update_relay_env
            (insert_all [])
            (codes "wss://a/ws")
            (codes "rk_1")
            (codes "7")
            content)))
    ≡ env_lookup wanted (read_env_file content)
update_relay_env_example =
    update_relay_env_lem (insert_all []) range-env_lookup range-All (codes "wss://a/ws")
      (codes "rk_1") (codes "7") content wanted (ground (arith)) (ground (arith)) (ground (arith))
