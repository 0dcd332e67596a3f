-- ===== src/Examples.antt =====
-- Runs of the models on concrete inputs, and instances of the theorems.
mod Rings
mod Breakers
mod Retries
mod Limits
mod Clients
mod Healths
mod Loops
mod Gateways
mod Labels
mod Store
mod Caches
mod Warmers
mod Shields
mod Edges
mod Responses
mod Commands
