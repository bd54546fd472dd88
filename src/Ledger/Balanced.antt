-- ===== src/Ledger/Balanced.antt =====
-- platform/ledger/validate.go: `Validate` against the sum of the signed amounts of each asset.
use go_boilerplate.Prelude.{
  ◌≡◌, ◌≢◌, refl, sym, ◌∙◌, Bool, true, false, ◌&&◌, Option, none, some, List, [], ◌∷◌, arith,
  String, str_eq, eq_iff, ok, err, inl, inr, Result-cases, if◌then◌else◌,
}
use go_boilerplate.Dict.{Dict, lookup, insert, lookup-insert}
use go_boilerplate.Decimal.{Decimal, Values, DecimalLaws}
use go_boilerplate.Money.Amount.{Money}
use go_boilerplate.Money.Arith.{add_money, same_asset}
use go_boilerplate.Ledger.{
  Entry, Posting, LedgerError, must_add, signed, add_net, net_of, all_zero, validate, is_empty,
}

module _ {D V : Type 0} ⦃dec : Decimal D⦄ {vals : Values V} (laws : DecimalLaws dec vals) where
  open laws use {value}

  -- The signed sum of the entries of one asset.
  unfoldable pub net_value : String → List (Entry D) → V
  net_value asset [] = vals.zero_value
  net_value asset (e ∷ es) =
      if str_eq e.amount.asset asset
      then vals.plus (value (signed e).amount) (net_value asset es)
      else net_value asset es

  -- Every amount is positive.
  abbrev pub all_positive : List (Entry D) → Bool
  all_positive [] = true
  all_positive (e ∷ es) = dec.is_positive e.amount.amount && all_positive es

  abbrev amount_of : Option (Money D) → V
  amount_of none = vals.zero_value
  amount_of (some m) = value m.amount

  -- What the map holds for one asset.
  tally : String → Dict (Money D) → V
  tally asset net = amount_of (lookup asset net)

  must_add_value :
      (a b : Money D) {s : Money D}
      → must_add a b ≡ ok s
      → value s.amount ≡ vals.plus (value a.amount) (value b.amount)
  unfolding must_add add_money same_asset
  must_add_value a b h = ground (arith, laws.value-add a.amount b.amount)

  tally-insert :
      (k asset : String) (m : Money D) (net : Dict (Money D))
      → tally asset (insert k m net) ≡ (if str_eq k asset then value m.amount else tally asset net)
  unfolding tally
  tally-insert k asset m net = ground (arith, lookup-insert k asset m net)

  -- One round of the loop adds the entry's signed amount to what the map holds for its asset.
  tally-add_net :
      (asset : String) (e : Entry D) (o : Option (Money D)) (net : Dict (Money D))
      {net' : Dict (Money D)}
      → lookup e.amount.asset net ≡ o
      → add_net e o net ≡ ok net'
      → tally asset net' ≡ (
          if str_eq e.amount.asset asset
          then vals.plus (tally asset net) (value (signed e).amount)
          else tally asset net)
  unfolding add_net tally
  tally-add_net asset e none net found h = ground (
    arith,
    lookup-insert e.amount.asset asset (signed e) net,
    eq_iff e.amount.asset asset,
    vals.zero-plus (value (signed e).amount),
  )
  tally-add_net asset e (some cur) net found h = elim (Result-cases (must_add cur (signed e))) [
    | inl (s, added) ↦ ground (
      arith,
      lookup-insert e.amount.asset asset s net,
      eq_iff e.amount.asset asset,
      must_add_value cur (signed e) added,
    )
    | inr (x, failed) ↦ ground arith
  ]

  -- The loop ends with the sum of what it began with and the entries' net, for every asset.
  tally-net_of :
      (asset : String) (es : List (Entry D)) (net : Dict (Money D)) {net' : Dict (Money D)}
      → net_of es net ≡ ok net'
      → tally asset net' ≡ vals.plus (tally asset net) (net_value asset es)
  unfolding net_of net_value
  tally-net_of asset [] net {net' = m} h =
      ground
        (arith, vals.plus_comm (tally asset net) vals.zero_value, vals.zero-plus (tally asset net))
  tally-net_of asset (e ∷ es) net {net' = m} h =
      elim (Result-cases (add_net e (lookup e.amount.asset net) net)) [
        | inl (n, added) ↦ ground (
          arith,
          tally-net_of asset es n {net' = m},
          tally-add_net asset e (lookup e.amount.asset net) net refl added,
          vals.plus_assoc (tally asset net) (value (signed e).amount) (net_value asset es),
        )
        | inr (x, failed) ↦ ground arith
      ]

  tally-all_zero :
      (asset : String) (net : Dict (Money D))
      → all_zero net ≡ ok tt
      → tally asset net ≡ vals.zero_value
  unfolding all_zero tally
  tally-all_zero asset [] h = refl
  tally-all_zero asset ((a, n) ∷ net) h =
      ground (arith, laws.is_zero_iff n.amount, tally-all_zero asset net)

  -- What a valid posting is, with no map: a key, entries, each of a positive amount, and for every
  -- asset a signed sum of zero.
  pub record IsBalanced (p : Posting D) : Type 0 where
    pub keyed : p.idempotency_key ≢ ""
    pub inhabited : is_empty p.entries ≡ false
    pub amounts : all_positive p.entries ≡ true
    pub nets : (asset : String) → net_value asset p.entries ≡ vals.zero_value

  net_of-positive :
      (es : List (Entry D)) (net : Dict (Money D)) {net' : Dict (Money D)}
      → net_of es net ≡ ok net'
      → all_positive es ≡ true
  unfolding net_of
  net_of-positive [] net {net' = m} h = refl
  net_of-positive (e ∷ es) net {net' = m} h =
      elim (Result-cases (add_net e (lookup e.amount.asset net) net)) [
        | inl (n, added) ↦ ground (arith, net_of-positive es n {net' = m})
        | inr (x, failed) ↦ ground arith
      ]

  validate_parts :
      (p : Posting D) (n : Dict (Money D))
      → validate p ≡ ok tt
      → net_of p.entries [] ≡ ok n
      → (str_eq p.idempotency_key "" ≡ false) × (is_empty p.entries ≡ false) × (all_zero n ≡ ok tt)
  unfolding validate
  validate_parts p n h netted = ground arith

  net_of-rejected :
      (p : Posting D) (x : LedgerError) → net_of p.entries [] ≡ err x → validate p ≢ ok tt
  unfolding validate
  net_of-rejected p x failed h = ground arith

  -- A posting that `Validate` accepts has a key and entries, each with a positive amount, and the
  -- signed sum of its entries is zero for every asset.
  pub validate-IsBalanced : (p : Posting D) → validate p ≡ ok tt → IsBalanced p
  unfolding tally
  validate-IsBalanced p h = elim (Result-cases (net_of p.entries [])) [
    | inl (n, netted) ↦
        let (key, some_entries, zeros) = validate_parts p n h netted in
        record {
          keyed = λ k. ground (arith, eq_iff p.idempotency_key "");
          inhabited = some_entries;
          amounts = net_of-positive p.entries [] netted;
          nets = λ asset.
              net_zero asset n (tally-net_of asset p.entries [] netted)
                (tally-all_zero asset n zeros);
        }
    | inr (x, failed) ↦ absurd (net_of-rejected p x failed h)
  ]
    where
      net_zero :
          (asset : String) (n : Dict (Money D))
          → tally asset n ≡ vals.plus (tally asset []) (net_value asset p.entries)
          → tally asset n ≡ vals.zero_value
          → net_value asset p.entries ≡ vals.zero_value
      net_zero asset n t z = sym (vals.zero-plus (net_value asset p.entries)) ∙ sym t ∙ z
