-- ===== src/Effect.antt =====
-- Promises and exceptions: an asynchronous method is a function on the state it may change, with the
-- state coming back after a rejection too. `Loops` has the retry loops that the connection shares.
pub mod Defs
pub mod Loops
pub mod Outcomes
pub use Defs.*
unfoldable pub use Loops.*
pub use Outcomes.{Ends, attempt-Ends, Ends-err, Ends-state, bind-Ends, catch-Ends, try_each-Ends}
