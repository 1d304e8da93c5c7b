-- ===== src/Guest.antt =====
-- crates/hand-guest/src: the durable logs of the guest.
pub mod LogFile
pub mod FileEffects
pub mod Acks
