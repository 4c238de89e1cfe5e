-- ===== src/Gateway.antt =====
-- pkg/gateway: the gateway that fans tool calls out to the node agents.
pub mod CircuitBreaker
pub mod Framing
pub mod Messages
pub mod HttpClient
pub mod Router
pub mod Proxy
