-- ===== src/Tests/Partitions.antt =====
-- The theorems about the partitions of the outbox at concrete inputs.
use go_boilerplate.Prelude.{
  ◌≡◌, refl, not, none, some, [], ◌∷◌, String, str_eq, pos, ◌==◌, if◌then◌else◌,
}
use go_boilerplate.Outbox.{Message}
use go_boilerplate.Partitions.{
  PartitionNames, PartitionConfig, new_partition_manager, Partition, PartitionDb, PartitionFaults,
  maintain, ensure_partitions,
}
use go_boilerplate.Partitions.Kept.{waiting_rows, maintain_keeps}

abbrev few_names : PartitionNames
few_names = record {
  format_time = λ t. if t == 0 then "00010101t000000" else "00010101t000010";
  matches = λ s. not (str_eq s "outbox_default");
  parse_time = λ s. if str_eq s "00010101t000000" then some 0 else some 10;
}

abbrev short_windows : PartitionConfig
short_windows = new_partition_manager (pos 10) (pos 5) (pos 0)

abbrev one_drop_fails : PartitionFaults String
one_drop_fails = record {
  create_fault = λ i. none;
  list_fault = none;
  probe_fault = λ name. none;
  detach_fault = λ name. none;
  drop_fault = λ name. some "busy";
}

abbrev unsent : Message
unsent = record {
  id = "m1";
  topic = "orders.events";
  aggregate_type = "order";
  aggregate_id = "o1";
  event_type = "created";
  payload = "{}";
  headers = "";
  created_at = 5;
}

abbrev old_partitions : PartitionDb
old_partitions = record {
  attached =
      record { relname = "outbox_default"; range = none; stored = [] }
      ∷ record {
        relname = "outbox_p00010101t000000";
        range = some (0, 10);
        stored = record { msg = unsent; published_at = none } ∷ [];
      }
      ∷ record {
        relname = "outbox_p00010101t000010";
        range = some (10, 20);
        stored = record { msg = unsent; published_at = some 12 } ∷ [];
      }
      ∷ [];
  detached = [];
}

maintain_keeps_example :
    waiting_rows (maintain few_names short_windows one_drop_fails 90 old_partitions).0.attached
    ≡ record { msg = unsent; published_at = none } ∷ []
maintain_keeps_example = maintain_keeps few_names short_windows one_drop_fails 90 old_partitions

-- The partition whose rows are all published is detached, and its drop fails.
maintain_detaches :
    (maintain few_names short_windows one_drop_fails 90 old_partitions).1 ≡ "busy" ∷ []
unfolding maintain new_partition_manager go_boilerplate.Partitions.ensure_partitions
maintain_detaches = refl

abbrev two_ahead : PartitionConfig
two_ahead = new_partition_manager (pos 10) (pos 5) (pos 2)
