-- ===== src/Pipeline.antt =====
-- core/pipeline.py: the two entry points that put the parts together.
pub mod Read
pub mod Release
pub mod Reads
pub mod Write
pub mod Writes
pub mod Storage
