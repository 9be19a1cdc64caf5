-- ===== src/Server/Serving.antt =====
-- internal/server/server.go: the two relays with what they report to the account pool.
use devin2proxy.Prelude.{ℕ, Bool, Option, some, List, Bytes}
use devin2proxy.Pool.Accounts.{Pool}
use devin2proxy.Server.Refusals.{report_quota_refusal}
use devin2proxy.Server.Completions.{stream_completion, whole_completion}
use devin2proxy.Server.Relay.{
  Feed, ContextState, Writer, End, aborted, gone, complete, failed, reported, stream_chunks, Answer,
  completed, answered_timeout, unanswered, answered_stop, answered_error, write_whole_completion,
}

-- The pool when a relay is over, for the credential it used and the clock of the report.
unfoldable pub after_stream : Pool → Option ℕ → ℕ → ℕ → End → Pool
unfolding report_quota_refusal
after_stream p creds now later aborted = p
after_stream p creds now later gone = p
after_stream p creds now later complete = p
after_stream p creds now later failed = p
after_stream p creds now later (reported err) =
    (report_quota_refusal p creds (some err) now later).1

unfoldable pub after_answer : Pool → Option ℕ → ℕ → ℕ → Answer → Pool
unfolding report_quota_refusal
after_answer p creds now later (completed answer) = p
after_answer p creds now later answered_timeout = p
after_answer p creds now later unanswered = p
after_answer p creds now later answered_stop = p
after_answer p creds now later (answered_error err) =
    (report_quota_refusal p creds (some err) now later).1

-- `streamChunks` and `writeWholeCompletion` with the pool.
unfoldable pub serve_stream :
    (ℕ → Bool)
    → Bool
    → ContextState
    → List Bytes
    → Option ℕ
    → ℕ
    → ℕ
    → Feed
    → Pool
    → (End × Writer) × Pool
unfolding after_stream
serve_stream fails include_usage ctx stops creds now later feed p =
    let r = stream_chunks fails include_usage ctx stops feed in
    (r, after_stream p creds now later r.0)

unfoldable pub serve_whole :
    ContextState → List Bytes → Option ℕ → ℕ → ℕ → Feed → Pool → Answer × Pool
unfolding after_answer
serve_whole ctx stops creds now later feed p =
    let r = write_whole_completion ctx stops feed in (r, after_answer p creds now later r)

-- The text completions with the pool.
unfoldable pub serve_text_stream :
    (ℕ → Bool)
    → Bool
    → ContextState
    → List Bytes
    → Option Bytes
    → Option ℕ
    → ℕ
    → ℕ
    → Feed
    → Pool
    → (End × Writer) × Pool
unfolding after_stream
serve_text_stream fails include_usage ctx stops echo creds now later feed p =
    let r = stream_completion fails include_usage ctx stops echo feed in
    (r, after_stream p creds now later r.0)

unfoldable pub serve_text_whole :
    ContextState → List Bytes → Option Bytes → Option ℕ → ℕ → ℕ → Feed → Pool → Answer × Pool
unfolding after_answer
serve_text_whole ctx stops echo creds now later feed p =
    let r = whole_completion ctx stops echo feed in (r, after_answer p creds now later r)
