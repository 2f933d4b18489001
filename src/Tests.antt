-- ===== src/Tests.antt =====
-- Runs of the model on small inputs, and the theorems at inputs that meet their hypotheses.
mod Sample
mod Blobs
mod Streams
mod Operations
mod Trees
mod Agents
mod Bucket
mod Machines
mod Tasks
mod Host
mod Restored
mod Shallow
mod Started
