-- ===== src/Pool.antt =====
-- internal/devin/pool.go: the accounts that requests rotate over. A `*Credentials` is an address in
-- the pool's part of the heap, `nil` is `none`, an index of -1 is `none`, and every method takes a
-- pool that is not nil. Each method holds its locks throughout, so a call is one step; the goroutine
-- of `refreshQuota` makes its own calls at any later time. Log lines are left out.
pub mod Accounts
pub mod Cooldowns
pub mod Identity
pub mod Invariant
pub mod Consistent
pub mod Reports
pub mod Histories
pub mod Guard
pub mod Removal
pub mod Holds
pub mod Marks
pub mod Flights
pub mod Serving
mod Examples
