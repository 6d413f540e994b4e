-- ===== src/Evidence.antt =====
-- internal/services/evidence.go and anti_loop.go: what agents claim about a subject, and the detector of
-- agents that go in circles.
pub mod Records
pub mod Detector
pub mod Loops
pub mod Recorded
pub mod Tests
