-- ===== src/Wire.antt =====
-- ssu2/wire: packets and the blocks that they carry.
pub mod Packet
pub mod Block
