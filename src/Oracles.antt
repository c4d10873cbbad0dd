-- ===== src/Oracles.antt =====
-- src/ddsleuth/oracles: the invariants that a run's evidence is checked against.
pub mod Base
pub mod RecipientBinding
pub mod Authorization
pub mod Impersonation
pub mod ObserverHealth
pub mod PolicyConsistency
pub mod Lifecycle
pub mod KeyScope
pub mod TokenTransport
pub mod EndpointLifecycle
pub mod SampleDelivery
pub mod SessionRotation
pub mod Evaluate
mod Tests
mod KeyTests
