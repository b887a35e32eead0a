-- ===== src/Supervise/Backoff.antt =====
-- The backoff schedule of internal/supervise/supervise.go.
