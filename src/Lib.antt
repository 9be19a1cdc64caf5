-- ===== src/Lib.antt =====
-- devin2proxy: the account pool, the wire format, the request path and the control panel of the gateway.
--
-- The gateway takes chat requests in the form of the OpenAI API, picks one of several accounts of the
-- Devin backend, sends the request as a protobuf message in a Connect envelope, and streams the answer
-- back. `Pool.Next` picks the account by the walk of `rotationCursor`; what the backend answers comes
-- back to the pool by `Report`, which may put the account on a cooldown and start a status call, whose
-- answer may lengthen that cooldown (`applyQuota`, with the deadline of `AccountStatus.ResetDeadline`).
-- The request is encoded by internal/devin/wire.go over internal/pb/pb.go; the body of the answer is
-- split into frames by internal/devin/connect.go, and the text in them passes the stop filter of
-- internal/openai/translate.go. internal/eventlog/eventlog.go keeps the last events.
--
-- `getChatMessage` of internal/server/server.go asks one account after another; each time the client of
-- internal/devin/client.go sends the request, over the routes that the egress pool hands out
-- (internal/devin/egress.go), and hands back a stream, which the server relays as events or in one piece.
-- The control panel of internal/dashboard signs the operator in, bans addresses that guess, and keeps
-- its state in one file.
--
-- Files and code:
--   Prelude        numbers, tests, slices, byte strings and shifts that the parts share
--   Errors         the error values of internal/devin that the pool looks into
--   Status         internal/devin/status.go: `ResetDeadline` and `soonest`; Status/Reset has its laws
--   Rotate         internal/devin/rotate.go: `rotationCursor` and all its methods; Rotate/Walk, Pick,
--                  Deadlines and Fair have its laws
--   Pool           internal/devin/pool.go: Pool/Accounts has the accounts (`NewPool`, `Next`, `Add`,
--                  `Remove`, `indexLocked`), Pool/Cooldowns has `Report`, `ClearCooldown` and the status
--                  calls; the other files have their laws
--   Pb             internal/pb/pb.go: Pb/Writer and Pb/Reader; Pb/Varint, Fields and Ends have their laws
--   Wire           internal/devin/wire.go: Wire/Loop has the loop of the decoders, Wire/Numbers the field
--                  numbers, the other files a message each, with a RoundTrip beside it or in it
--   Connect        internal/devin/connect.go: `ParseFrames` and `EncodeFrame`
--   EventLog       internal/eventlog/eventlog.go: `New`, `Emit` and `Recent`; EventLog/Lines has `Write`
--   Openai         internal/openai/translate.go: Openai/Stop has `StopFilter`, Openai/ToolCalls has
--                  `ToolCallAccumulator.Add`, `FinishReason` and `UsageFromStats`
--   Egress         internal/devin/egress.go: Egress/Specs has the masking of specs, Egress/Routes the
--                  pool (`NewEgressPool`, `Next`, `Report`, `States`), Egress/Socks `socks5Handshake`;
--                  Egress/Masking, Rotation and Handshake have their laws
--   Client         internal/devin/client.go: Client/Waits has `retryDelay` and `parseRetryAfter`,
--                  Client/Attempts `postStream`, Client/Stream `Recv`, `Peek` and `Close`, with
--                  `ParseEndStream` of connect.go; Client/Delays, Sends, Bounds, Reach and
--                  Frames have their laws
--   Server         internal/server/server.go: Server/Refusals has the access check, the model names and
--                  the classification of failures, Server/Relay `streamChunks` and
--                  `writeWholeCompletion`, Server/Completions `streamCompletion` and the rest of
--                  `handleCompletions`, Server/Serving what these report to the pool, Server/Failover
--                  `getChatMessage`; Server/Classes, Collected, Agreement, Typing,
--                  Asking and Turns have their laws
--   Dashboard      internal/dashboard: Dashboard/Store has store.go, Dashboard/Bans and Session have
--                  auth.go, Dashboard/Login has `guard`, `handleLogin` and `handleLogout`; Saving, Ladder,
--                  Pacing, Attempts, Passwords, Tokens, Acts and Access have their laws
-- A definition has the name of its function in small letters (`removeLocked` is `splice`), and a helper
-- carries a comment with the code that it stands for. State is passed on; a method returns its result
-- and the new state. A credential is an address in a heap, since `Report` may hold one that the pool
-- has let go. A mutex makes one call one step. The goroutine of a status call makes its
-- own calls (it remembers, applies and releases) at any later times, with any others in between, and a
-- login has two parts, `judge_login` and `finish_login`, with the key derivation between them.
--
-- The network, the file system and the random source are arguments: what the n-th attempt meets is
-- `world n`, what each call of a save answers is a `Files`, a connection is the bytes that it will give
-- and the number of writes that succeed on it. encoding/json, the hashes, net and url.Parse are functions
-- in records of parameters.
--
-- Numbers and bounds: times are nanoseconds, a session's expiry is in Unix seconds, and strings
-- are bytes. A `uint64` is a number below
-- 2 ^ 64, an `int` that goes through a varint is its 64-bit pattern, and a float is its IEEE bits; what
-- is shifted out of 64 bits is cut off as in the code. Loops that take bytes off a buffer run on rounds:
-- ten for a varint, whose tenth shift ends the loop, and for frames, fields and packed numbers as many
-- as there are bytes or one more, since a round takes a byte at least.
--
-- The attempts of a request run on as many rounds as the code allows attempts, and `recv` on one more
-- than there are bytes, since an envelope takes five.
--
-- Not modelled: the random numbers of identifiers, which are arguments; dialing, TLS, transports and
-- `dialHTTPConnect`; `PostUnary`; the probes; the decoding of requests, the other handlers of the server and
-- of the panel, its page and its traces; the configuration and the commands; locks, and texts for logs.
pub mod Prelude
pub mod Errors
pub mod Status
pub mod Rotate
pub mod Pool
pub mod Pb
pub mod Wire
pub mod Connect
pub mod EventLog
pub mod Openai
pub mod Dashboard
pub mod Egress
pub mod Client
pub mod Server
