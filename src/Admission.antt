-- ===== src/Admission.antt =====
-- uni_api/admission: the governors of the process's resources.
pub mod Counter
pub mod Memory
pub mod Cpu
pub mod Network
pub mod Gate
pub mod FairQueue
