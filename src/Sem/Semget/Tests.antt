-- ===== src/Sem/Semget/Tests.antt =====
-- Runs of `sys_semget`.
