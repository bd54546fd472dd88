-- ===== src/Outbox/Sharding.antt =====
-- platform/messaging/outbox: the shards of the relay divide the messages.
