-- ===== src/Conflict/Tests.antt =====
-- Names and priorities at concrete servers.
