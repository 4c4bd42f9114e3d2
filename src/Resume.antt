-- ===== src/Resume.antt =====
-- Resumes: app/modules/resume.
pub mod Chunker
