-- ===== src/Provider.antt =====
-- internal/keypool/provider.go: the key provider, over the store and the database. The methods are
-- actions on a `World`; the times that they read are arguments.
pub mod Names
pub mod Views
pub mod Records
pub mod Steps
pub mod Retry
pub mod RateLimited
pub mod RoundTrip
pub mod Recovered
pub mod Punished
pub mod Revived
pub mod Drift
pub mod Removed
pub mod Turns
pub mod Loaded
mod Tests
pub mod Transaction
pub mod Handlers
pub mod Pool
pub mod Recovery
use gpt_load_fix.Prelude.{ℕ, List, [], ◌∷◌}
