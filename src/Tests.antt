-- ===== src/Tests.antt =====
-- The theorems at concrete inputs.
mod Model
mod Pure
mod Amounts
mod Settlement
mod Resolvers
mod Destination
mod Filling
mod CancelOrders
mod Orders
