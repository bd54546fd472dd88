-- ===== src/Partitions/Ahead.antt =====
-- platform/messaging/outbox/partition.go: the partitions are there ahead of the inserts.
use go_boilerplate.Prelude.{ℕ, ◌+◌, ◌*◌, ◌≡◌, none}
use go_boilerplate.Partitions.{
  PartitionNames, PartitionConfig, window, PartitionDb, partition_name, create_partition,
  PartitionFaults,
}

module _ {E : Type 0} (names : PartitionNames) (cfg : PartitionConfig) (faults : PartitionFaults E)
    (created : (i : ℕ) → faults.create_fault i ≡ none) where
  abbrev after_round : ℕ → ℕ → PartitionDb → PartitionDb
  after_round i now db =
      let range = window cfg (now + i * cfg.interval) in
      record db { attached = create_partition (partition_name names range.0) range db.attached }
