-- ===== src/Tests.antt =====
-- Tests of the model at concrete inputs, and each theorem with hypotheses at an input that meets them.
mod RateLimit
mod KeyPool
mod Health
mod Streaming
mod Admission
mod Memory
mod Cpu
mod Weights
mod Plan
mod Affinity
mod Gate
mod FairQueue
