-- ===== src/Irk/Tests.antt =====
-- A bond record with a key.
