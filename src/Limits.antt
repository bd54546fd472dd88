-- ===== src/Limits.antt =====
-- platform/web/ratelimit/memory.go: the table of per-key limiters. A key's token bucket
-- (golang.org/x/time/rate) is a parameter `L`; time is a number. A Go map is walked in an order that
-- the run time chooses, so the walk is an argument: any list of the entries of the table.
use go_boilerplate.Prelude.{
  ℕ, suc, ◌+◌, ◌-◌, Bool, true, false, not, ◌||◌, Option, none, some, List, [], ◌∷◌, String, str_eq,
  ltb, leb, if◌then◌else◌, length, take,
}
use go_boilerplate.Dict.{Dict, lookup, insert, erase}
pub mod Bounds

pub record Entry (L : Type 0) : Type 0 where
  pub lim : L
  pub last_seen : ℕ

abbrev pub default_max_entries : ℕ
default_max_entries = 100_000

pub record Memory (L : Type 0) : Type 0 where
  pub entries : Dict (Entry L)
  pub max_entries : ℕ
  pub idle_ttl : ℕ

-- `allow_n` is `lim.AllowN(now, 1)`: the bucket after the call and the verdict.
pub record Limiter (L : Type 0) : Type 0 where
  pub new_limiter : L
  pub allow_n : ℕ → L → L × Bool

abbrev pub sample_size : ℕ
sample_size = 8

module _ {L : Type 0} where
  -- The loop over the sample: the key and time of the oldest so far.
  unfoldable pub oldest_of : String → ℕ → Dict (Entry L) → String
  oldest_of key time [] = key
  oldest_of key time ((k, e) ∷ rest) =
      if ltb e.last_seen time then oldest_of k e.last_seen rest else oldest_of key time rest

  -- `sampled == 0` takes the first entry whatever its time.
  unfoldable pub sampled_oldest : Dict (Entry L) → String
  unfolding oldest_of
  sampled_oldest [] = ""
  sampled_oldest ((k, e) ∷ rest) = oldest_of k e.last_seen rest

  unfoldable pub evict_one : Dict (Entry L) → Dict (Entry L) → Dict (Entry L)
  unfolding sampled_oldest
  evict_one walk entries =
      let oldest = sampled_oldest (take sample_size walk) in
      if str_eq oldest "" then entries else erase oldest entries

  unfoldable pub evict_idle : ℕ → Memory L → Dict (Entry L) → Dict (Entry L)
  evict_idle now m [] = []
  evict_idle now m ((k, e) ∷ rest) =
      let kept = evict_idle now m rest in
      if ltb (e.last_seen + m.idle_ttl) now then kept else (k, e) ∷ kept

  -- `getLocked`: the entry of the key and the table after the call.
  unfoldable pub get_locked :
      Limiter L → ℕ → Dict (Entry L) → String → Memory L → Entry L × Memory L
  unfolding evict_one
  get_locked lib now walk key m = elim (lookup key m.entries) [
    | some e ↦ (e, m)
    | none ↦
        let room =
          if leb m.max_entries (length m.entries) then evict_one walk m.entries else m.entries in
        let e : Entry L = record { lim = lib.new_limiter; last_seen = now } in
        (e, record m { entries = insert key e room })
  ]

  -- The state change of `Allow` and its verdict; the budget in the reply is computed in floats.
  unfoldable pub allow : Limiter L → ℕ → Dict (Entry L) → String → Memory L → Memory L × Bool
  unfolding get_locked
  allow lib now walk key m =
      let (e, m') = get_locked lib now walk key m in
      let (lim', verdict) = lib.allow_n now e.lim in
      (
        record m' { entries = insert key (record { lim = lim'; last_seen = now }) m'.entries },
        verdict,
      )
