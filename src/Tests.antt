-- ===== src/Tests.antt =====
-- Tests of redcli's model, and the theorems at concrete inputs.
mod Toy
mod Pool
mod Codecs
mod Phases
mod Runs
mod Buffers
mod Sharing
mod Machine
mod Texts
mod Files
mod Results
mod Whole
