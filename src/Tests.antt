-- ===== src/Tests.antt =====
-- Sample data and the theorems at concrete inputs.
mod Samples
mod Journals
mod Codecs
mod Writers
mod Executors
mod Names
mod Pipelines
mod Plans
