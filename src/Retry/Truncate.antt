-- ===== src/Retry/Truncate.antt =====
-- platform/messaging/retry/escalate.go: `truncate`, which shortens the error text of a dead letter.
