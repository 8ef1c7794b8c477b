-- ===== src/Tests.antt =====
-- Runs of the model over concrete numbers, a concrete store and a concrete codec, and the theorems
-- at such inputs.
mod Numbers
mod Memory
mod Samples
mod Policies
mod Fences
mod Wire
mod Deliveries
mod Leases
mod Configs
mod Plans
mod Handovers
mod Runs
mod Loops
mod Cluster
