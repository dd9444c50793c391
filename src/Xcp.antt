-- ===== src/Xcp.antt =====
-- subProj 9 XCP Calibration: the calibration protocol, between a master and a slave node.
pub mod Frames
pub mod Slave
pub mod Master
pub mod Calibration
mod Tests
