-- ===== src/Relay/Intake/Signature.antt =====
-- The tests of the timestamp and of the signature in internal/relay/client.go.
use degenbox_hyperliquid_cli.Relay.Canonical.{JsonText, instruction_canonical}
use degenbox_hyperliquid_cli.Relay.Types.{ExecutionInstruction}
use degenbox_hyperliquid_cli.Relay.Intake.{Crypto, signature_error, is_current}
use degenbox_hyperliquid_cli.Base.{
  ◌≡◌, ◌≢◌, ◌↔◌, inl, inr, true, none, some, arith, Option-cases, String, eq_iff,
}
use degenbox_hyperliquid_cli.Base.Int.{ℤ, pos, ◌≤ℤ◌, ◌+ℤ◌}

pub is_current-cases :
    (timestamp millis : ℤ)
    → (is_current timestamp millis ≡ true) ↔ (
        (pos 1 ≤ℤ timestamp)
        × (millis ≤ℤ (timestamp +ℤ pos 60_000))
        × (timestamp ≤ℤ (millis +ℤ pos 10_000)))
unfolding is_current ◌+ℤ◌
is_current-cases timestamp millis = (λ h. ground arith, λ h. ground arith)

module _ (crypto : Crypto) (jt : JsonText) where
  -- The text that is signed verifies under the signature of the instruction.
  abbrev pub IsSigned : ExecutionInstruction → Type 0
  IsSigned instr =
      (sig_bytes : crypto.Bytes) × (text : String) × (instr.signature ≢ "")
      × (crypto.decode_hex instr.signature ≡ some sig_bytes)
      × (instruction_canonical jt instr ≡ some text)
      × (crypto.verify text sig_bytes ≡ true)

  pub signature_error-none :
      (instr : ExecutionInstruction) → (signature_error crypto jt instr ≡ none) ↔ IsSigned instr
  unfolding signature_error
  signature_error-none instr = (
    λ h. elim (Option-cases (crypto.decode_hex instr.signature)) [
      | inl bad ↦ absurd (ground arith)
      | inr (sig_bytes, decoded) ↦ elim (Option-cases (instruction_canonical jt instr)) [
        | inl bad ↦ absurd (ground arith)
        | inr (text, encoded) ↦ (
          sig_bytes,
          text,
          λ e. ground (arith, eq_iff instr.signature ""),
          decoded,
          encoded,
          ground arith,
        )
      ]
    ],
    λ w. ground (arith, eq_iff instr.signature "", w.2, w.3, w.4, w.5),
  )
