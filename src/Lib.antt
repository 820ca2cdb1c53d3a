-- ===== src/Lib.antt =====
-- A model of the bot that executes trading instructions on the Hyperliquid exchange.
--
-- An instruction of the relay server arrives at internal/relay/client.go, passes the checks of
-- dedup.go, the rate limiter, validator.go and the portfolio check, and is run step by step by
-- executor.go, which calls internal/hyperliquid/client.go and feeds circuitbreaker.go.
--
-- Relay/Types           internal/relay/types.go: instructions, steps, results, messages
-- Relay/Dedup           dedup.go: `check` is `Check`
-- Relay/RateLimit       client.go: `allow` is `rateLimiter.Allow`
-- Relay/CircuitBreaker  circuitbreaker.go: `record_success`, `record_failure`
-- Relay/Validator       validator.go: `validate` is `Validate`, with the functions below it
-- Relay/Portfolio       validator.go and client.go: `ValidatePortfolio`, `estimateInstructionNotional`
-- Relay/State           client.go: the fields of `Client` that change, `sendJSON`, `SendPause`
-- Relay/Executor        executor.go: `execute_instruction` is `executeInstruction`
-- Relay/SigFailures     client.go: `recordSigFailure`
-- Relay/Messages        validator.go: the texts of the errors
-- Relay/Canonical       canonical.go: `instruction_canonical` is `instructionCanonical`
-- Relay/Intake          client.go: `handle_instruction` is `handleInstruction`
-- Relay/Session         client.go: `NewClient`, `connect`, `readLoop`, `execWorker`, as events
-- Relay/Reconnect       client.go: `connectLoop`, with `UpdateAPIKey` around each attempt
-- Config                internal/config/config.go
-- Hyperliquid/Types     internal/hyperliquid/types.go and info.go: the wire types
-- Hyperliquid/Nonce     client.go: the loop that draws nonces; Nonce/Race, its interleavings
-- Hyperliquid/Exchange  client.go: `postExchange` and the operations on orders
-- Hyperliquid/Assets    client.go: `RefreshAssets` and the lookups
-- Hyperliquid/KillSwitch client.go: `CancelAllOrders`, `CloseAllPositions`, `GetL2Mid`
-- Hyperliquid/Signer    signer.go: `sign_action` is `SignAction`, `action_bytes` what it hashes
-- Keystore              internal/keystore/keystore.go: `Encrypt`, `Decrypt`, `ReadAddress`
-- Keystore/AtomicWrite  keystore.go: the states of the disk in `atomicWriteFile`
-- Bot/Tui               cmd/bot/tui.go: the model; Tui/Edit, `handleEditKey` and view_edit.go
-- Bot/Tui/Update        tui.go: `update` is `Update`; Tui/Start, `newTUIModel`
-- Bot/Setup             cmd/bot/cmd_setup.go: the questions, `promptInt` and the others
-- Bot/EnvFile           cmd_setup.go and view_edit.go: `readEnvFile`, `saveAPIKeyToEnv`, `updateRelay`
-- Bot/LogHandler        cmd/bot/loghandler.go: `TUILogHandler`
-- Bot/TradeStore        cmd/bot/tradestore.go: the ring of the last trades
--
-- A time is a number of nanoseconds, `time.Time.Sub` saturates as in Go (Clock). A float64 is an
-- interface of its operations (Float): no law is assumed but, where a theorem names it, that
-- arithmetic on a NaN gives a NaN and no comparison with one holds. The float64 nearest to an integer is
-- computed (Float/Integers). A Go int is an integer; where
-- int64 can overflow, in the nonces and in the cooldown, the wrap-around is written out. The loops
-- go over lists, but for the questions of the setup (below) and `decimal`, which runs on fuel, one more
-- than the number that it writes, which has no more digits (Base/Decimal).
--
-- The client is a state (Relay/State) that events change (Relay/Session): a message that is read, the
-- worker that takes an instruction off the queue and runs it, the callback of the circuit breaker, a
-- ping, a log line, the end of a connection, an attempt at a new one. They come in any order, which
-- stands for the interleavings of the goroutines. A message is handled in two parts: the pause is
-- looked at in the first, and what the other goroutines do before the second, from the signature on,
-- is part of the event. The risk limits and the tables of assets, which are replaced while the client
-- runs, come with each message. The mutexes make each operation of the
-- deduplication, the limiter and the breaker one step.
--
-- The terminal interface is a model that messages change (Bot/Tui/Update): keys, account updates, log
-- lines, the results of commands. A command is an effect that `update` gives back; its result comes as
-- a later message. A text field is an interface of the operations of the bubbles library. The disk of
-- the keystore is the list of its states, so that a crash may stop between any two of them. The
-- questions of the setup (Bot/Setup) read lines on fuel, one for each line and one more for the end of
-- the input; where that is not enough, no fuel is. A Go map of the file .env is the list of its
-- insertions, and the order of `range` a parameter (Bot/EnvFile).
--
-- Base holds what the files share: lists, decimal text, integers, results that may panic
-- (Base/Outcome). Text holds the operations on Go's strings, hex among them (Text/Hex), and Examples
-- applies the theorems at concrete inputs, with floats in fixed point.
--
-- Not modelled, as parameters: the HTTP and WebSocket connections, the decoding of JSON, msgpack,
-- Ed25519, Argon2, AES-GCM, the curve of the keys, Keccak and the hashes of EIP-712 structures. Left
-- out: the rendering of the views and the styles, the reading and writing of the settings files, the
-- rest of the setup, the wiring of the run command, the other log handlers and the audit log, the
-- heartbeat, the notifications and the self-update, which are input and output.
pub mod Base
pub mod Clock
pub mod Float
pub mod Text
pub mod Config
pub mod Keystore
pub mod Hyperliquid
pub mod Relay
pub mod Bot
mod Examples
