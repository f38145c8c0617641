-- ===== src/Mem.antt =====
-- The in-memory reference switch (internal/nosd/mem), which defines what the contract's calls mean.
-- A method takes the mutex for its whole body, so a call is one step from state to state.
pub mod State
pub mod Ports
pub mod Vlans
pub mod Svis
pub mod Routes
pub mod Acls
pub mod Lags
pub mod Stp
pub mod Mlag
pub mod Calls
pub mod Effect
pub mod Writes
pub mod Steps
pub mod Views
pub mod Aggregation
pub mod Outcome
pub mod Atomicity
pub mod Invariants
pub mod Readers
pub mod Examples
