-- ===== src/Etherfi.antt =====
-- internal/etherfi: the queries over the nodes, the store of events, and the balances.
pub mod App
pub mod Call
pub mod Retry
pub mod Queries
pub mod Traders
pub mod Delegates
pub mod Shares
pub mod Combine
pub mod Store
pub mod NewApp
pub mod RunFilter
pub mod Balances
pub mod Request
