-- ===== src/Egress.antt =====
-- crates/hand-egress-gateway/src: the network policy of the egress gateway.
pub mod Policy
