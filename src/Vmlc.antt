-- ===== src/Vmlc.antt =====
-- The `vmlc` application: exams, and the candidates' attempts at them.
pub mod Model
pub mod Exam
pub mod Attempt
pub mod Passcode
pub mod Proctoring
