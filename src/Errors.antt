-- ===== src/Errors.antt =====
-- What the code reads of a Go error: the tests and targets that `errors.Is` and `errors.As` find in
-- its chain (internal/devin/client.go, connect.go, egress.go).
use devin2proxy.Prelude.{ℕ, Bool, ◌||◌, Option, Bytes}

pub record HttpError : Type 0 where
  pub status : ℕ
  pub body : Bytes

pub record ConnectError : Type 0 where
  pub code : Bytes
  pub message : Bytes

pub record EgressError : Type 0 where
  pub broken : Bool

pub record GoError : Type 0 where
  pub canceled : Bool
  pub deadline_exceeded : Bool
  pub os_deadline_exceeded : Bool
  pub eof : Bool
  pub http : Option HttpError
  pub connect : Option ConnectError
  pub egress : Option EgressError

unfoldable pub is_context_failure : GoError → Bool
is_context_failure e = e.canceled || e.deadline_exceeded || e.os_deadline_exceeded
