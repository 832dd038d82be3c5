-- ===== src/Tests.antt =====
-- Runs of the model at concrete inputs.
mod Sample
mod Ranges
mod Ownership
mod Transfers
mod Receive
mod Mobile
mod MobileLifecycle
mod Tree
mod VaultStore
mod Replication
mod Search
mod Clusters
mod Quarantine
mod Recovery
