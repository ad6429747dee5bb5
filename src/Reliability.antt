-- ===== src/Reliability.antt =====
-- ssu2/reliability: reliable delivery over UDP.
pub mod Window
pub mod Rtt
pub mod Congestion
pub mod Ack
