-- ===== src/Limits/Bounds.antt =====
-- platform/web/ratelimit/memory.go: how many keys the table holds.
use go_boilerplate.Prelude.{
  ℕ, zero, suc, ◌+◌, ◌≤◌, ◌≡◌, refl, ◌∙◌, Bool, true, false, ◌&&◌, none, [], ◌∷◌, arith, String,
  str_eq, eq_iff, length, take, inl, inr, Option-cases, Bool-cases, ap,
}
use go_boilerplate.Dict.{Dict, lookup, insert, erase, contains, lookup-insert, length-insert_le}
use go_boilerplate.Limits.{
  Entry, Memory, Limiter, oldest_of, sampled_oldest, evict_one, get_locked, allow, sample_size,
}

module _ {L : Type 0} where
  length-erase :
      (k : String) (d : Dict (Entry L)) → contains k d ≡ true → length (erase k d) + 1 ≡ length d
  length-erase k [] h = cc
  length-erase k ((j, w) ∷ d) h = ground (arith, length-erase k d)

  length-insert_old :
      (k : String) (v : Entry L) (d : Dict (Entry L))
      → contains k d ≡ true
      → length (insert k v d) ≡ length d
  length-insert_old k v [] h = cc
  length-insert_old k v ((j, w) ∷ d) h = ground (arith, length-insert_old k v d)

  -- Every key of the walk stands in the table.
  abbrev pub keys_in : Dict (Entry L) → Dict (Entry L) → Bool
  keys_in [] d = true
  keys_in ((k, e) ∷ walk) d = contains k d && keys_in walk d

  keys_in-take :
      (n : ℕ) (walk d : Dict (Entry L)) → keys_in walk d ≡ true → keys_in (take n walk) d ≡ true
  keys_in-take zero walk d h = refl
  keys_in-take (suc n) [] d h = refl
  keys_in-take (suc n) ((k, e) ∷ walk) d h = ground (arith, keys_in-take n walk d)

  contains-oldest_of :
      (key : String) (t : ℕ) (walk d : Dict (Entry L))
      → contains key d ≡ true
      → keys_in walk d ≡ true
      → contains (oldest_of key t walk) d ≡ true
  unfolding oldest_of
  contains-oldest_of key t [] d h w = h
  contains-oldest_of key t ((k, e) ∷ walk) d h w =
      ground (arith, contains-oldest_of k e.last_seen walk d, contains-oldest_of key t walk d)

  contains-sampled_oldest :
      (k : String) (e : Entry L) (walk d : Dict (Entry L))
      → keys_in ((k, e) ∷ walk) d ≡ true
      → contains (sampled_oldest (take sample_size ((k, e) ∷ walk))) d ≡ true
  unfolding sampled_oldest
  contains-sampled_oldest k e walk d h =
      contains-oldest_of k e.last_seen (take 7 walk) d (ground arith)
        (keys_in-take 7 walk d (ground arith))

  ne-of_contains :
      (k : String) (d : Dict (Entry L))
      → contains k d ≡ true
      → contains "" d ≡ false
      → str_eq k "" ≡ false
  ne-of_contains k d h no_empty = elim (Bool-cases (str_eq k "")) [
    | inl same ↦ let empty : contains "" d ≡ true = rw ((eq_iff k "").0 same) at h in cc
    | inr other ↦ other
  ]

  length-evict_one :
      (k : String) (e : Entry L) (walk d : Dict (Entry L))
      → keys_in ((k, e) ∷ walk) d ≡ true
      → contains "" d ≡ false
      → length (evict_one ((k, e) ∷ walk) d) + 1 ≡ length d
  unfolding evict_one
  length-evict_one k e walk d h no_empty =
      let inside = contains-sampled_oldest k e walk d h in
      rw (ne-of_contains _ d inside no_empty) (length-erase _ d inside)

  contains-insert :
      (k : String) (v : Entry L) (d : Dict (Entry L)) → contains k (insert k v d) ≡ true
  contains-insert k v d = ground (arith, lookup-insert k k v d, eq_iff k k)

  length-insert_new :
      (k : String) (v : Entry L) (d : Dict (Entry L))
      → lookup k d ≡ none
      → length (insert k v d) ≡ length d + 1
  length-insert_new k v [] h = omega arith
  length-insert_new k v ((j, w) ∷ d) h = ground (arith, length-insert_new k v d)

  get_locked_bounded :
      (lib : Limiter L) (now : ℕ) (k : String) (e : Entry L) (walk : Dict (Entry L)) (key : String)
      (m : Memory L)
      → keys_in ((k, e) ∷ walk) m.entries ≡ true
      → contains "" m.entries ≡ false
      → length m.entries ≤ m.max_entries
      → let m' = (get_locked lib now ((k, e) ∷ walk) key m).1 in
        (contains key m'.entries ≡ true) × (length m'.entries ≤ m.max_entries)
  unfolding get_locked
  get_locked_bounded lib now k e walk key m h no_empty fits =
      elim (Option-cases (lookup key m.entries)) [
        | inl missing ↦
            let new_entry : Entry L = record { lim = lib.new_limiter; last_seen = now } in
            let evicted = evict_one ((k, e) ∷ walk) m.entries in
            ground (
              arith,
              length-evict_one k e walk m.entries h no_empty,
              contains-insert key new_entry evicted,
              contains-insert key new_entry m.entries,
              length-insert_le key new_entry evicted,
              length-insert_le key new_entry m.entries,
            )
        | inr (found, known) ↦ ground arith
      ]

  -- With no empty key in the table, `Allow` keeps the number of
  -- keys within the limit, for any walk that begins with an entry of the table and holds only such.
  pub allow_bounded :
      (lib : Limiter L) (now : ℕ) (k : String) (e : Entry L) (walk : Dict (Entry L)) (key : String)
      (m : Memory L)
      → keys_in ((k, e) ∷ walk) m.entries ≡ true
      → contains "" m.entries ≡ false
      → length m.entries ≤ m.max_entries
      → length (allow lib now ((k, e) ∷ walk) key m).0.entries ≤ m.max_entries
  unfolding allow get_locked
  allow_bounded lib now k e walk key m h no_empty fits =
      let (g, m') = get_locked lib now ((k, e) ∷ walk) key m in
      let (there, within) = get_locked_bounded lib now k e walk key m h no_empty fits in
      rw
        (length-insert_old key (record { lim = (lib.allow_n now g.lim).0; last_seen = now })
          m'.entries there)
        within

  evict_skipped :
      (walk d : Dict (Entry L)) → sampled_oldest (take sample_size walk) ≡ "" → evict_one walk d ≡ d
  unfolding evict_one
  evict_skipped walk d old = rw old

  get_locked_full :
      (lib : Limiter L) (now : ℕ) (walk : Dict (Entry L)) (key : String) (m : Memory L)
      → sampled_oldest (take sample_size walk) ≡ ""
      → lookup key m.entries ≡ none
      → let new_entry : Entry L = record { lim = lib.new_limiter; last_seen = now } in
        get_locked lib now walk key m
        ≡ (new_entry, record m { entries = insert key new_entry m.entries })
  unfolding get_locked
  get_locked_full lib now walk key m old fresh = ground (arith, evict_skipped walk m.entries old)

  -- Where the empty key is the oldest of the sample, nothing is evicted: a request with a new key
  -- takes a full table past its limit.
  pub allow_exceeds :
      (lib : Limiter L) (now : ℕ) (walk : Dict (Entry L)) (key : String) (m : Memory L)
      → sampled_oldest (take sample_size walk) ≡ ""
      → lookup key m.entries ≡ none
      → length m.entries ≡ m.max_entries
      → length (allow lib now walk key m).0.entries ≡ m.max_entries + 1
  unfolding allow
  allow_exceeds lib now walk key m old fresh full =
      let new_entry : Entry L = record { lim = lib.new_limiter; last_seen = now } in
      rw (get_locked_full lib now walk key m old fresh) (
        length-insert_old key
          (record { lim = (lib.allow_n now lib.new_limiter).0; last_seen = now })
          (insert key new_entry m.entries) (contains-insert key new_entry m.entries)
        ∙ length-insert_new key new_entry m.entries fresh
        ∙ ap (λ (n : ℕ). n + 1) full)
