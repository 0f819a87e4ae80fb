-- ===== src/Tests/Changes.antt =====
-- Examples for the administration of jobs.
