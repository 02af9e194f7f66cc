-- ===== src/Tests.antt =====
-- Runs of the models on concrete inputs, and the theorems at concrete inputs.
mod Orders
mod Wire
mod Requests
mod Rings
mod Servers
mod Readings
mod Rounds
mod Clients
mod Queues
mod Exchanges
mod Restores
mod Prices
