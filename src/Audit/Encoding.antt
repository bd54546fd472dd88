-- ===== src/Audit/Encoding.antt =====
-- platform/security/audit: the canonical form of an entry is read in one way only.
use mathlib.Core.List.{append_assoc}
use go_boilerplate.Prelude.{
  ℕ, ◌+◌, ◌*◌, ◌^◌, ◌<◌, ◌≡◌, refl, sym, ap, ◌∙◌, [], ◌∷◌, ◌++◌, length, drop, Bytes, arith,
}
use go_boilerplate.Audit.{Metadata}
use go_boilerplate.Audit.Hash.{be8, write_field, sorted_pairs, write_pairs, canonical}

-- What fits a length of 8 bytes.
abbrev pub IsU64 : ℕ → Type 0
IsU64 n = n < 2 ^ 64

-- The number in 8 bytes.
abbrev from_be8 : Bytes → ℕ
from_be8 (a ∷ b ∷ c ∷ d ∷ e ∷ f ∷ g ∷ h ∷ rest) =
    ((((((a * 256 + b) * 256 + c) * 256 + d) * 256 + e) * 256 + f) * 256 + g) * 256 + h
from_be8 other = 0

from_be8-be8 : (n : ℕ) → IsU64 n → (rest : Bytes) → from_be8 (be8 n ++ rest) ≡ n
unfolding be8
from_be8-be8 n h rest = omega arith

append_cancel :
    (xs ys us vs : Bytes) → length xs ≡ length ys → xs ++ us ≡ ys ++ vs → (xs ≡ ys) × (us ≡ vs)
append_cancel [] [] us vs l e = (refl, e)
append_cancel [] (y ∷ ys) us vs l e = absurd (omega arith)
append_cancel (x ∷ xs) [] us vs l e = absurd (omega arith)
append_cancel (x ∷ xs) (y ∷ ys) us vs l e = ground (arith, append_cancel xs ys us vs)

be8_inj :
    (n m : ℕ) (us vs : Bytes) → IsU64 n → IsU64 m → be8 n ++ us ≡ be8 m ++ vs → (n ≡ m) × (us ≡ vs)
unfolding be8
be8_inj n m us vs hn hm e =
    (sym (from_be8-be8 n hn us) ∙ ap from_be8 e ∙ from_be8-be8 m hm vs, ap (drop 8) e)

write_field_inj :
    (a b us vs : Bytes)
    → IsU64 (length a)
    → IsU64 (length b)
    → write_field a ++ us ≡ write_field b ++ vs
    → (a ≡ b) × (us ≡ vs)
unfolding write_field
write_field_inj a b us vs ha hb e =
    let (same, rest) =
      be8_inj (length a) (length b) (a ++ us) (b ++ vs) ha hb
        (sym (append_assoc (be8 (length a)) a us) ∙ e ∙ append_assoc (be8 (length b)) b vs) in
    append_cancel a b us vs same rest

-- Every key and value fits.
abbrev pub PairsFit : Metadata → Type 0
PairsFit [] = Unit {0}
PairsFit ((k, v) ∷ m) = IsU64 (length k) × IsU64 (length v) × PairsFit m

write_pairs_inj :
    (m m' : Metadata)
    → PairsFit m
    → PairsFit m'
    → length m ≡ length m'
    → write_pairs m ≡ write_pairs m'
    → m ≡ m'
unfolding write_pairs
write_pairs_inj [] [] f f' l e = refl
write_pairs_inj [] (p ∷ m') f f' l e = absurd (omega arith)
write_pairs_inj (p ∷ m) [] f f' l e = absurd (omega arith)
write_pairs_inj ((k, v) ∷ m) ((k', v') ∷ m') (fk, fv, f) (fk', fv', f') l e =
    let (keys, e₁) =
      write_field_inj k k' (write_field v ++ write_pairs m) (write_field v' ++ write_pairs m') fk
        fk' e in
    let (values, e₂) = write_field_inj v v' (write_pairs m) (write_pairs m') fv fv' e₁ in
    let rest = write_pairs_inj m m' f f' (omega arith) e₂ in rw (keys, values, rest) refl

-- What an entry is hashed over.
pub record Content : Type 0 where
  pub who : Bytes
  pub what : Bytes
  pub whom : Bytes
  pub when : ℕ
  pub pairs : Metadata

-- Every length and the time fit 64 bits, as in the source.
abbrev pub ContentFits : Content → Type 0
ContentFits c =
    IsU64 (length c.who)
    × IsU64 (length c.what)
    × IsU64 (length c.whom)
    × IsU64 c.when
    × IsU64 (length (sorted_pairs c.pairs))
    × PairsFit (sorted_pairs c.pairs)

-- The same entry, with the same metadata as a map.
abbrev pub SameContent : Content → Content → Type 0
SameContent c d =
    (c.who ≡ d.who)
    × (c.what ≡ d.what)
    × (c.whom ≡ d.whom)
    × (c.when ≡ d.when)
    × (sorted_pairs c.pairs ≡ sorted_pairs d.pairs)

abbrev pub encoded : Content → Bytes
encoded c = canonical c.who c.what c.whom c.when c.pairs

-- Behind a hash of one length, the canonical form determines the entry and the hash before it.
pub canonical_inj :
    (p q : Bytes) (c d : Content)
    → length p ≡ length q
    → ContentFits c
    → ContentFits d
    → p ++ encoded c ≡ q ++ encoded d
    → (p ≡ q) × SameContent c d
unfolding canonical
canonical_inj p q c d l (a, b, s, t, n, f) (a', b', s', t', n', f') e =
    let (hashes, e₁) = append_cancel p q (encoded c) (encoded d) l e in
    let (actors, e₂) = write_field_inj c.who d.who _ _ a a' e₁ in
    let (actions, e₃) = write_field_inj c.what d.what _ _ b b' e₂ in
    let (subjects, e₄) = write_field_inj c.whom d.whom _ _ s s' e₃ in
    let (times, e₅) = be8_inj c.when d.when _ _ t t' e₄ in
    let (counts, e₆) =
      be8_inj (length (sorted_pairs c.pairs)) (length (sorted_pairs d.pairs)) _ _ n n' e₅ in
    (
      hashes,
      (
        actors,
        actions,
        subjects,
        times,
        write_pairs_inj (sorted_pairs c.pairs) (sorted_pairs d.pairs) f f' counts e₆,
      ),
    )
