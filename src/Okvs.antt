-- ===== src/Okvs.antt =====
-- psi/algorithm/rr22/okvs: the linear algebra of the oblivious key-value store.
pub mod Bits
pub mod DenseMtx
mod Tests
