-- ===== src/Ledger.antt =====
-- platform/ledger: the data model of ledger.go, the checks of validate.go, and the in-memory store of
-- mem.go. A call holds the store's lock from end to end, so it is one function from the state to the
-- new state. The errors keep their kind and what their text names. A panic is the case `panics`.
use go_boilerplate.Prelude.{
  Bool, true, false, not, Option, none, some, List, [], ◌∷◌, ◌++◌, String, str_eq, Result, ok, err,
  ◌>>=◌, ◌>>◌, if◌then◌else◌,
}
use go_boilerplate.Dict.{Dict, lookup, insert, contains}
use go_boilerplate.Decimal.{Decimal}
use go_boilerplate.Money.Asset.{Registry, lookup_asset}
use go_boilerplate.Money.Amount.{Money, zero_of}
use go_boilerplate.Money.Arith.{add_money, neg_money}
pub mod Balanced
pub mod Invariant

pub data Side : Type 0 where
  debit credit : Side

pub Side-discrete : Discrete Side
Side-discrete = hlevel

abbrev pub opposite : Side → Side
opposite debit = credit
opposite credit = debit

abbrev pub same_side : Side → Side → Bool
same_side debit debit = true
same_side debit credit = false
same_side credit debit = false
same_side credit credit = true

pub record Account : Type 0 where
  pub account_id : String
  pub account_asset : String
  pub normal : Side

pub record Entry (D : Type 0) : Type 0 where
  pub account : String
  pub direction : Side
  pub amount : Money D

pub record Posting (D : Type 0) : Type 0 where
  pub idempotency_key : String
  pub entries : List (Entry D)

pub data LedgerError : Type 0 where
  no_idempotency_key empty_posting non_positive_amount unbalanced : LedgerError
  unknown_account : String → LedgerError
  account_asset_mismatch : String → String → String → LedgerError
  unknown_asset_of : String → String → LedgerError
  already_registered : String → LedgerError
  panics : LedgerError

pub record MemStore (D : Type 0) : Type 0 where
  pub accounts : Dict Account
  pub posted : List (Entry D)
  pub seen : Dict (Unit {0})

abbrev pub new_mem_store : {D : Type 0} → MemStore D
new_mem_store = record { accounts = []; posted = []; seen = [] }

module _ {D : Type 0} ⦃dec : Decimal D⦄ where
  unfoldable pub must_add : Money D → Money D → Result LedgerError (Money D)
  must_add a b = elim (add_money a b) [ ok s ↦ ok s | err _ ↦ err panics ]

  unfoldable pub must_zero : (String → String) → Registry → String → Result LedgerError (Money D)
  must_zero cause reg asset = elim (zero_of cause reg asset) [ ok z ↦ ok z | err _ ↦ err panics ]

  -- The amount with the sign of its side: debit +, credit -.
  abbrev pub signed : Entry D → Money D
  signed e = elim e.direction [ debit ↦ e.amount | credit ↦ neg_money e.amount ]

  -- `net[asset] = …` for one entry.
  unfoldable pub add_net :
      Entry D → Option (Money D) → Dict (Money D) → Result LedgerError (Dict (Money D))
  add_net e none net = ok (insert e.amount.asset (signed e) net)
  add_net e (some cur) net = do sum ← must_add cur (signed e); ok (insert e.amount.asset sum net)

  -- The loop of `Validate` over the entries.
  unfoldable pub net_of : List (Entry D) → Dict (Money D) → Result LedgerError (Dict (Money D))
  unfolding add_net
  net_of [] net = ok net
  net_of (e ∷ es) net =
      if dec.is_positive e.amount.amount
      then (do net' ← add_net e (lookup e.amount.asset net) net; net_of es net')
      else err non_positive_amount

  -- The loop over `net`; the order of a Go map does not matter to it.
  unfoldable pub all_zero : Dict (Money D) → Result LedgerError (Unit {0})
  all_zero [] = ok tt
  all_zero ((a, n) ∷ net) = if dec.is_zero n.amount then all_zero net else err unbalanced

  abbrev pub is_empty : List (Entry D) → Bool
  is_empty [] = true
  is_empty (e ∷ es) = false

  unfoldable pub validate : Posting D → Result LedgerError (Unit {0})
  validate p =
      if str_eq p.idempotency_key ""
      then err no_idempotency_key
      else if is_empty p.entries
      then err empty_posting
      else (do net ← net_of p.entries []; all_zero net)

  -- The check of one entry against the accounts.
  unfoldable pub check_entry : Option Account → Entry D → Result LedgerError (Unit {0})
  check_entry none e = err (unknown_account e.account)
  check_entry (some a) e =
      if str_eq a.account_asset e.amount.asset
      then ok tt
      else err (account_asset_mismatch e.account a.account_asset e.amount.asset)

  unfoldable pub check_entries : Dict Account → List (Entry D) → Result LedgerError (Unit {0})
  check_entries accounts [] = ok tt
  check_entries accounts (e ∷ es) = do
    check_entry (lookup e.account accounts) e
    check_entries accounts es

  unfoldable pub register_account :
      Registry → Account → MemStore D → MemStore D × Option LedgerError
  register_account reg a s = elim (lookup_asset a.account_asset reg) [
    | none ↦ (s, some (unknown_asset_of a.account_id a.account_asset))
    | some _ ↦
        if contains a.account_id s.accounts
        then (s, some (already_registered a.account_id))
        else (record s { accounts = insert a.account_id a s.accounts }, none)
  ]

  -- What `Post` does once its checks have passed or failed.
  unfoldable pub commit :
      Posting D → Result LedgerError (Unit {0}) → MemStore D → MemStore D × Option LedgerError
  commit p (err e) s = (s, some e)
  commit p (ok _) s =
      (record s { seen = insert p.idempotency_key tt s.seen; posted = s.posted ++ p.entries }, none)

  unfoldable pub post : Posting D → MemStore D → MemStore D × Option LedgerError
  unfolding commit
  post p s = elim (validate p) [
    | err e ↦ (s, some e)
    | ok _ ↦
        if contains p.idempotency_key s.seen
        then (s, none)
        else commit p (check_entries s.accounts p.entries) s
  ]

  -- The change that one entry makes to an account's balance.
  abbrev pub delta : Account → Entry D → Money D
  delta a e = if same_side e.direction a.normal then e.amount else neg_money e.amount

  unfoldable pub balance_from :
      String → Account → Money D → List (Entry D) → Result LedgerError (Money D)
  balance_from id a bal [] = ok bal
  balance_from id a bal (e ∷ es) = elim (str_eq e.account id) [
    | false ↦ balance_from id a bal es
    | true ↦ must_add bal (delta a e) >>= λ b. balance_from id a b es
  ]

  unfoldable pub balance :
      (String → String) → Registry → String → MemStore D → Result LedgerError (Money D)
  balance cause reg id s = elim (lookup id s.accounts) [
    | none ↦ err (unknown_account id)
    | some a ↦ must_zero cause reg a.account_asset >>= λ z. balance_from id a z s.posted
  ]
