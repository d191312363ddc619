-- ===== src/Transport.antt =====
-- src/transport: how a client chooses a connection, and the budget of what connections take.
pub mod EndpointSchedule
pub mod ResourceBudget
pub mod Wire
pub mod RailHealth
pub mod Operation
pub mod RdmaProtocol
pub mod RecvSegment
pub mod RecvPool
