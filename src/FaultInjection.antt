-- ===== src/FaultInjection.antt =====
-- subProj 8 ISO26262 Fault Injection: the safety ECU, and the proxy that sabotages its messages.
pub mod SafetyEcu
pub mod FaultProxy
pub mod Detection
pub mod Stale
pub mod Latch
mod Tests
