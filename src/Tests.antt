-- ===== src/Tests.antt =====
-- Runs of the model on small inputs, and the theorems at inputs where their hypotheses hold.
mod Graphs
mod Selections
mod Stores
mod Validations
mod Groups
mod Instances
mod Sources
mod Builds
mod Addresses
mod Journals
mod Applies
mod Runs
mod Levels
mod Buckets
mod Saves
mod RoundTrips
mod Retentions
