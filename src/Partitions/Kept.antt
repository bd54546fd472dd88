-- ===== src/Partitions/Kept.antt =====
-- platform/messaging/outbox/partition.go: a message that is not published outlives the maintenance.
use go_boilerplate.Prelude.{
  ℕ, zero, suc, ◌+◌, ◌-◌, ◌*◌, ◌≡◌, refl, ap, ◌∙◌, false, Option, none, some, List, [], ◌∷◌, ◌++◌,
  String, str_eq, pos_part, ltb, arith, Bool-cases, inl, inr, if◌then◌else◌,
}
use go_boilerplate.Outbox.{OutboxRow, is_pending}
use go_boilerplate.Partitions.{
  PartitionNames, PartitionConfig, window, Partition, PartitionDb, partition_name,
  parse_partition_low, has_partition, create_partition, PartitionFaults, create_or_stop,
  ensure_from, ensure_partitions, any_pending, has_unpublished, without, dropped, detach, probe,
  drop_one, drop_each, drop_listed, drop_expired, maintain, list_partitions, named,
}

abbrev pub unpublished_rows : List OutboxRow → List OutboxRow
unpublished_rows [] = []
unpublished_rows (r ∷ rs) =
    let rest = unpublished_rows rs in if is_pending r then r ∷ rest else rest

-- The rows of the outbox that wait to be published, partition by partition.
abbrev pub waiting_rows : List Partition → List OutboxRow
waiting_rows [] = []
waiting_rows (p ∷ ps) = unpublished_rows p.stored ++ waiting_rows ps

none_waiting : (rs : List OutboxRow) → any_pending rs ≡ false → unpublished_rows rs ≡ []
none_waiting [] h = refl
none_waiting (r ∷ rs) h = ground (arith, none_waiting rs)

waiting-without :
    (name : String) (ps : List Partition)
    → has_unpublished name ps ≡ false
    → waiting_rows (without name ps) ≡ waiting_rows ps
waiting-without name [] h = refl
waiting-without name (p ∷ ps) h = elim (Bool-cases (str_eq p.relname name)) [
  | inr other ↦
      rw other (ap (λ l. unpublished_rows p.stored ++ l) (waiting-without name ps (ground arith)))
  | inl same ↦
      rw (same, none_waiting p.stored (ground arith)) (waiting-without name ps (ground arith))
]

waiting-create :
    (name : String) (range : ℕ × ℕ) (ps : List Partition)
    → waiting_rows (create_partition name range ps) ≡ waiting_rows ps
waiting-create name range ps = elim (Bool-cases (has_partition name ps)) [
  | inl there ↦ rw there refl
  | inr new ↦ rw new (appended ps)
]
  where
    appended :
        (qs : List Partition)
        → waiting_rows (qs ++ record { relname = name; range = some range; stored = [] } ∷ [])
          ≡ waiting_rows qs
    appended [] = refl
    appended (q ∷ qs) = ap (λ l. unpublished_rows q.stored ++ l) (appended qs)

module _ {E : Type 0} (names : PartitionNames) (cfg : PartitionConfig)
    (faults : PartitionFaults E) where
  waiting-ensure :
      (left i now : ℕ) (db : PartitionDb)
      → waiting_rows (ensure_from names cfg faults left i now db).0.attached
        ≡ waiting_rows db.attached
  unfolding ensure_from
  waiting-ensure zero i now db = refl
  waiting-ensure (suc left) i now db =
      go (faults.create_fault i) (λ next. waiting-ensure left (i + 1) now next)
    where
      range : ℕ × ℕ
      range = window cfg (now + i * cfg.interval)

      go :
          (fault : Option E)
          → ((next : PartitionDb)
              → waiting_rows (ensure_from names cfg faults left (i + 1) now next).0.attached
                ≡ waiting_rows next.attached)
          → waiting_rows
              (create_or_stop fault
                (partition_name names range.0)
                range
                db
                (ensure_from names cfg faults left (i + 1) now)).0.attached
            ≡ waiting_rows db.attached
      go (some e) later = refl
      go none later =
          later (record db {
            attached = create_partition (partition_name names range.0) range db.attached;
          })
          ∙ waiting-create (partition_name names range.0) range db.attached

  waiting-dropped :
      (name : String) (fault : Option E) (db : PartitionDb)
      → (dropped names cfg faults name fault db).0.attached ≡ db.attached
  waiting-dropped name (some e) db = refl
  waiting-dropped name none db = refl

  waiting-detach :
      (name : String) (fault : Option E) (db : PartitionDb)
      → has_unpublished name db.attached ≡ false
      → waiting_rows (detach names cfg faults name fault db).0.attached ≡ waiting_rows db.attached
  waiting-detach name (some e) db h = refl
  waiting-detach name none db h = go (faults.drop_fault name)
    where
      go :
          (fault : Option E)
          → waiting_rows
              (dropped names cfg faults name fault (record db {
                attached = without name db.attached;
                detached = db.detached ++ named name db.attached;
              })).0.attached
            ≡ waiting_rows db.attached
      go (some e) = waiting-without name db.attached h
      go none = waiting-without name db.attached h

  waiting-probe :
      (name : String) (fault : Option E) (db : PartitionDb)
      → waiting_rows (probe names cfg faults name fault db).0.attached ≡ waiting_rows db.attached
  waiting-probe name (some e) db = refl
  waiting-probe name none db = elim (Bool-cases (has_unpublished name db.attached)) [
    | inl holds_some ↦ rw holds_some refl
    | inr free ↦ rw free (waiting-detach name (faults.detach_fault name) db free)
  ]

  waiting-drop_one :
      (cutoff : ℕ) (name : String) (lo : Option ℕ) (db : PartitionDb)
      → waiting_rows (drop_one names cfg faults cutoff name lo db).0.attached
        ≡ waiting_rows db.attached
  waiting-drop_one cutoff name none db = refl
  waiting-drop_one cutoff name (some lo) db = elim (Bool-cases (ltb cutoff (lo + cfg.interval))) [
    | inl young ↦ rw young refl
    | inr expired ↦ rw expired (waiting-probe name (faults.probe_fault name) db)
  ]

  waiting-drop_each :
      (cutoff : ℕ) (listed : List String) (db : PartitionDb)
      → waiting_rows (drop_each names cfg faults cutoff listed db).0.attached
        ≡ waiting_rows db.attached
  unfolding drop_each
  waiting-drop_each cutoff [] db = refl
  waiting-drop_each cutoff (name ∷ rest) db =
      waiting-drop_each cutoff rest
        (drop_one names cfg faults cutoff name (parse_partition_low names name) db).0
      ∙ waiting-drop_one cutoff name (parse_partition_low names name) db

  waiting-drop_expired :
      (now : ℕ) (db : PartitionDb)
      → waiting_rows (drop_expired names cfg faults now db).0.attached ≡ waiting_rows db.attached
  unfolding drop_expired
  waiting-drop_expired now db = elim (Bool-cases (ltb 0 (pos_part cfg.retention))) [
    | inr off ↦ rw off refl
    | inl on ↦ rw on (go faults.list_fault)
  ]
    where
      go :
          (fault : Option E)
          → waiting_rows
              (drop_listed names cfg faults fault (now - pos_part cfg.retention) db).0.attached
            ≡ waiting_rows db.attached
      go (some e) = refl
      go none =
          waiting-drop_each (now - pos_part cfg.retention)
            (list_partitions names cfg faults db.attached) db

  -- A cycle of maintenance, with any faults in any of its statements, leaves the rows of the outbox that
  -- wait to be published as they were, in their order.
  pub maintain_keeps :
      (now : ℕ) (db : PartitionDb)
      → waiting_rows (maintain names cfg faults now db).0.attached ≡ waiting_rows db.attached
  unfolding maintain ensure_partitions
  maintain_keeps now db =
      waiting-drop_expired now (ensure_partitions names cfg faults now db).0
      ∙ waiting-ensure (cfg.lookahead + 1) 0 now db
