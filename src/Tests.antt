-- ===== src/Tests.antt =====
-- Concrete runs of the definitions, and the theorems at concrete inputs.
mod Topology
mod Wire
mod Slots
mod Queue
mod Mux
mod Pool
mod Blocking
mod Pubsub
mod Hub
mod Command
mod Split
mod Router
mod Cluster
mod Multi
mod Handler
