-- ===== src/Tests.antt =====
-- Runs of the models on small inputs, and each property at an input that meets its hypotheses.
mod Ring
mod Cluster
mod Store
mod Copies
mod System
mod Calls
mod Transfer
mod Wire
mod Connections
mod Loop
mod Requests
mod Worker
mod Stored
mod Users
mod Messages
mod Commands
mod Registry
