-- ===== src/Engine.antt =====
-- pkg/engine: the handler's queue of responses, and the multiplexed backend connections.
pub mod Responses
pub mod Mux
pub mod Blocking
pub mod Pubsub
pub mod Split
pub mod Multi
pub mod Clients
pub mod Handler
