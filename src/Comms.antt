-- ===== src/Comms.antt =====
-- Communication: include/comms and lib/comms. The transport itself is gRPC, and not modelled.
pub mod Server
pub mod Client
pub mod Intake
pub mod Delivery
