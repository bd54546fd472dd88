-- ===== src/Audit/Hash.antt =====
-- platform/security/audit/audit.go: the canonical form of an entry and its hash.
use go_boilerplate.Prelude.{
  ℕ, ◌/◌, ◌%◌, ◌^◌, Bool, true, false, ◌&&◌, [], ◌∷◌, ◌++◌, ltb, ◌==◌, if◌then◌else◌, length, Bytes,
}
use go_boilerplate.Audit.{Metadata, Crypto}

-- 8 bytes, big-endian.
unfoldable pub be8 : ℕ → Bytes
be8 n =
    (n / 2 ^ 56 % 256)
    ∷ (n / 2 ^ 48 % 256)
    ∷ (n / 2 ^ 40 % 256)
    ∷ (n / 2 ^ 32 % 256)
    ∷ (n / 2 ^ 24 % 256)
    ∷ (n / 2 ^ 16 % 256)
    ∷ (n / 2 ^ 8 % 256)
    ∷ (n % 256)
    ∷ []

unfoldable pub write_field : Bytes → Bytes
write_field b = be8 (length b) ++ b

-- The order of `sort.Strings`.
unfoldable pub leb_bytes : Bytes → Bytes → Bool
leb_bytes [] ys = true
leb_bytes (x ∷ xs) [] = false
leb_bytes (x ∷ xs) (y ∷ ys) = if x == y then leb_bytes xs ys else ltb x y

unfoldable pub insert_pair : Bytes × Bytes → Metadata → Metadata
insert_pair p [] = p ∷ []
insert_pair p (q ∷ m) =
    let rest = insert_pair p m in if leb_bytes p.0 q.0 then p ∷ q ∷ m else q ∷ rest

-- The pairs by sorted keys.
unfoldable pub sorted_pairs : Metadata → Metadata
unfolding insert_pair
sorted_pairs [] = []
sorted_pairs (p ∷ m) = insert_pair p (sorted_pairs m)

unfoldable pub write_pairs : Metadata → Bytes
unfolding write_field
write_pairs [] = []
write_pairs ((k, v) ∷ m) = write_field k ++ (write_field v ++ write_pairs m)

-- What is hashed behind the previous hash.
unfoldable pub canonical : Bytes → Bytes → Bytes → ℕ → Metadata → Bytes
unfolding write_field be8 sorted_pairs write_pairs
canonical actor action subject at metadata =
    write_field actor
    ++ (write_field action
        ++ (write_field subject
            ++ (be8 at
                ++ (be8 (length (sorted_pairs metadata)) ++ write_pairs (sorted_pairs metadata)))))

abbrev pub keyed_hash : Crypto → Bytes → Bytes → Bytes
keyed_hash crypto [] input = crypto.sha256 input
keyed_hash crypto (k ∷ ks) input = crypto.hmac (k ∷ ks) input

unfoldable pub compute_entry_hash :
    Crypto → Bytes → Bytes → Bytes → Bytes → Bytes → ℕ → Metadata → Bytes
compute_entry_hash crypto key prev actor action subject at metadata =
    keyed_hash crypto key (prev ++ canonical actor action subject at metadata)

unfoldable pub bytes_equal : Bytes → Bytes → Bool
bytes_equal [] [] = true
bytes_equal [] (y ∷ ys) = false
bytes_equal (x ∷ xs) [] = false
bytes_equal (x ∷ xs) (y ∷ ys) = x == y && bytes_equal xs ys
