-- ===== src/Ledger/Invariant.antt =====
-- platform/ledger/mem.go: what holds of the store after any calls of `RegisterAccount` and `Post`.
use go_boilerplate.Prelude.{
  ◌≡◌, ◌≢◌, refl, sym, ◌∙◌, true, none, List, [], ◌∷◌, ◌++◌, arith, String, eq_iff, ok, ◌⊎◌, inl,
  inr, Result-cases,
}
use go_boilerplate.Dict.{Dict, lookup, insert, contains, lookup-insert}
use go_boilerplate.Decimal.{Decimal, Values, DecimalLaws}
use go_boilerplate.Money.Asset.{Registry}
use go_boilerplate.Ledger.{
  Entry, Posting, Account, MemStore, new_mem_store, validate, check_entry, check_entries,
  register_account, post, signed,
}
use go_boilerplate.Ledger.Balanced.{net_value, all_positive, validate-IsBalanced}

module _ {D : Type 0} ⦃dec : Decimal D⦄ where
  check_entries-append :
      (accounts : Dict Account) (xs ys : List (Entry D))
      → check_entries accounts xs ≡ ok tt
      → check_entries accounts ys ≡ ok tt
      → check_entries accounts (xs ++ ys) ≡ ok tt
  unfolding check_entries
  check_entries-append accounts [] ys h k = k
  check_entries-append accounts (x ∷ xs) ys h k =
      elim (Result-cases (check_entry (lookup x.account accounts) x)) [
        | inl (u, checked) ↦ ground (arith, check_entries-append accounts xs ys)
        | inr (e, failed) ↦ ground arith
      ]

  check_entry-insert :
      (a : Account) (accounts : Dict Account) (e : Entry D)
      → lookup a.account_id accounts ≡ none
      → check_entry (lookup e.account accounts) e ≡ ok tt
      → check_entry (lookup e.account (insert a.account_id a accounts)) e ≡ ok tt
  unfolding check_entry
  check_entry-insert a accounts e fresh h =
      ground (arith, lookup-insert a.account_id e.account a accounts, eq_iff a.account_id e.account)

  -- A new account changes no check that has passed.
  check_entries-insert :
      (a : Account) (accounts : Dict Account) (es : List (Entry D))
      → lookup a.account_id accounts ≡ none
      → check_entries accounts es ≡ ok tt
      → check_entries (insert a.account_id a accounts) es ≡ ok tt
  unfolding check_entries
  check_entries-insert a accounts [] fresh h = refl
  check_entries-insert a accounts (e ∷ es) fresh h =
      elim (Result-cases (check_entry (lookup e.account accounts) e)) [
        | inl (u, checked) ↦
            ground (arith, check_entry-insert a accounts e, check_entries-insert a accounts es)
        | inr (x, failed) ↦ ground arith
      ]

  -- A posting that is refused, and one whose key was posted before, leave the store as it was.
  pub post_unchanged :
      (p : Posting D) (s : MemStore D)
      → ((post p s).1 ≢ none) ⊎ (contains p.idempotency_key s.seen ≡ true)
      → (post p s).0 ≡ s
  unfolding post
  post_unchanged p s h = ground arith

  seen-post :
      (p : Posting D) (s : MemStore D)
      → (post p s).1 ≡ none
      → contains p.idempotency_key (post p s).0.seen ≡ true
  unfolding post
  seen-post p s h = ground (
    arith,
    lookup-insert p.idempotency_key p.idempotency_key tt s.seen,
    eq_iff p.idempotency_key p.idempotency_key,
  )

  post_seen :
      (q : Posting D) (t : MemStore D)
      → validate q ≡ ok tt
      → contains q.idempotency_key t.seen ≡ true
      → post q t ≡ (t, none)
  unfolding post
  post_seen q t valid known = ground arith

  -- Once a posting has gone through, posting it or any other valid one with its key again succeeds
  -- and changes nothing.
  pub post_idempotent :
      (p q : Posting D) (s : MemStore D)
      → (post p s).1 ≡ none
      → q.idempotency_key ≡ p.idempotency_key
      → validate q ≡ ok tt
      → post q (post p s).0 ≡ ((post p s).0, none)
  post_idempotent p q s h same valid = post_seen q (post p s).0 valid (rw same (seen-post p s h))

  register_account-cases :
      (reg : Registry) (a : Account) (s : MemStore D)
      → ((register_account reg a s).0 ≡ s)
        ⊎ ((lookup a.account_id s.accounts ≡ none)
            × ((register_account reg a s).0
                ≡ record s { accounts = insert a.account_id a s.accounts }))
  unfolding register_account
  register_account-cases reg a s = ground arith

  post-cases :
      (p : Posting D) (s : MemStore D)
      → ((post p s).0 ≡ s)
        ⊎ ((validate p ≡ ok tt)
            × (check_entries s.accounts p.entries ≡ ok tt)
            × ((post p s).0 ≡ record s {
              seen = insert p.idempotency_key tt s.seen;
              posted = s.posted ++ p.entries;
            }))
  unfolding post
  post-cases p s = ground arith

  -- The store after any calls of `RegisterAccount` and `Post`, with any registry at each call,
  -- whatever the calls returned.
  pub data Reach : MemStore D → Type 0 where
    start : Reach new_mem_store
    after_register :
        {s : MemStore D}
        → Reach s
        → (reg : Registry) (a : Account) → Reach (register_account reg a s).0
    after_post : {s : MemStore D} → Reach s → (p : Posting D) → Reach (post p s).0

module _ {D V : Type 0} ⦃dec : Decimal D⦄ {vals : Values V} (laws : DecimalLaws dec vals) where
  -- Every entry belongs to an account of its asset and has a positive amount, and for every asset
  -- the signed sum of all entries is zero.
  pub record IsSound (s : MemStore D) : Type 0 where
    pub checked : check_entries s.accounts s.posted ≡ ok tt
    pub amounts : all_positive laws s.posted ≡ true
    pub nets : (asset : String) → net_value laws asset s.posted ≡ vals.zero_value

  net_value-append :
      (asset : String) (xs ys : List (Entry D))
      → net_value laws asset (xs ++ ys)
        ≡ vals.plus (net_value laws asset xs) (net_value laws asset ys)
  unfolding net_value
  net_value-append asset [] ys = sym (vals.zero-plus _)
  net_value-append asset (x ∷ xs) ys = ground (
    arith,
    net_value-append asset xs ys,
    vals.plus_assoc (laws.value (signed x).amount) (net_value laws asset xs)
        (net_value laws asset ys),
  )

  all_positive-append :
      (xs ys : List (Entry D))
      → all_positive laws xs ≡ true
      → all_positive laws ys ≡ true
      → all_positive laws (xs ++ ys) ≡ true
  all_positive-append [] ys h k = k
  all_positive-append (x ∷ xs) ys h k = ground (arith, all_positive-append xs ys)

  register_account-IsSound :
      (reg : Registry) (a : Account) (s : MemStore D)
      → IsSound s
      → IsSound (register_account reg a s).0
  register_account-IsSound reg a s h = elim (register_account-cases reg a s) [
    | inl unchanged ↦ rw unchanged h
    | inr (fresh, added) ↦ rw added (record {
      checked = check_entries-insert a s.accounts s.posted fresh h.checked;
      amounts = h.amounts;
      nets = h.nets;
    })
  ]

  post-IsSound : (p : Posting D) (s : MemStore D) → IsSound s → IsSound (post p s).0
  post-IsSound p s h = elim (post-cases p s) [
    | inl unchanged ↦ rw unchanged h
    | inr (valid, checks, added) ↦
        let b = validate-IsBalanced laws p valid in
        rw added (record {
          checked = check_entries-append s.accounts s.posted p.entries h.checked checks;
          amounts = all_positive-append s.posted p.entries h.amounts b.amounts;
          nets = λ asset.
              net_value-append asset s.posted p.entries
              ∙ rw (h.nets asset, b.nets asset) (vals.zero-plus vals.zero_value);
        })
  ]

  -- In every store that calls of `RegisterAccount` and `Post` lead to, each entry belongs to a
  -- registered account of its own asset and has a positive amount, and the debits of each asset equal
  -- its credits: money is conserved.
  pub Reach-IsSound : {s : MemStore D} → Reach s → IsSound s
  unfolding check_entries net_value
  Reach-IsSound start = record { checked = refl; amounts = refl; nets = λ asset. refl }
  Reach-IsSound (after_register {s = s} r reg a) =
      register_account-IsSound reg a s (Reach-IsSound r)
  Reach-IsSound (after_post {s = s} r p) = post-IsSound p s (Reach-IsSound r)
