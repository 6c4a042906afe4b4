-- ===== src/Pbs.antt =====
-- The PBS module (interstate-pbs-module/src): it keeps the constraints of a slot, forwards them to
-- the relays and accepts a relay's header only with a proof that it includes them.
pub mod Message
pub mod Store
pub mod Proofs
pub mod Server
pub mod Routes
pub mod Submission
