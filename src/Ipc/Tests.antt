-- ===== src/Ipc/Tests.antt =====
-- Runs of the permission check of IPC objects.
use fiwix_arm.Ipc.{IpcPerm}

abbrev given_away : IpcPerm
given_away = record { key = 7; uid = 1000; gid = 5; cuid = 0; cgid = 0; mode = 384; seq = 0 }
