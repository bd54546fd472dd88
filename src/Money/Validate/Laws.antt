-- ===== src/Money/Validate/Laws.antt =====
-- platform/money/validate.go: what the rules accept.
use go_boilerplate.Prelude.{◌≡◌, ◌↔◌, refl, true, Option, none, some, List, [], ◌∷◌, ◌++◌, arith}
use go_boilerplate.Decimal.{Decimal}
use go_boilerplate.Money.Error.{Error}
use go_boilerplate.Money.Amount.{Money}
use go_boilerplate.Money.Compare.{greater_than_or_equal, less_than_or_equal}
use go_boilerplate.Money.Validate.{validate, between, at_least, at_most, first_failure, Rule}

first_failure_iff : (a b : Option Error) → (first_failure a b ≡ none) ↔ ((a ≡ none) × (b ≡ none))
first_failure_iff none b = (λ h. (refl, h), λ h. h.1)
first_failure_iff (some e) b = (λ h. cc, λ h. cc h.0)

module _ {D : Type 0} ⦃dec : Decimal D⦄ where
  -- Every rule of a list accepts the amount.
  abbrev pub AllAccept : Money D → List (Rule D) → Type 0
  AllAccept m [] = Unit {0}
  AllAccept m (r ∷ rs) = (r m ≡ none) × AllAccept m rs

  -- `Validate` returns nil exactly when every rule accepts the amount.
  pub validate_iff : (m : Money D) (rs : List (Rule D)) → (validate m rs ≡ none) ↔ AllAccept m rs
  unfolding validate
  validate_iff m [] = (λ _. tt, λ _. refl)
  validate_iff m (r ∷ rs) =
      let split = first_failure_iff (r m) (validate m rs) in
      let rest = validate_iff m rs in
      (λ h. ((split.0 h).0, rest.0 (split.0 h).1), λ h. split.1 (h.0, rest.1 h.1))

  -- `Validate` returns the failure of a rule behind rules that all accept, whatever rules follow it.
  pub validate_first :
      (m : Money D) (pre rest : List (Rule D)) (r : Rule D) {e : Error}
      → AllAccept m pre
      → r m ≡ some e
      → validate m (pre ++ r ∷ rest) ≡ some e
  unfolding validate
  validate_first m [] rest r h fails = rw fails
  validate_first m (p ∷ pre) rest r h fails = rw h.0 (validate_first m pre rest r h.1 fails)

  -- `Between` accepts exactly the amounts for which `GreaterThanOrEqual` of the lower bound and
  -- `LessThanOrEqual` of the upper bound hold with no error.
  pub between_iff :
      (lo hi m : Money D)
      → (between lo hi m ≡ none)
        ↔ ((greater_than_or_equal m lo ≡ (true, none)) × (less_than_or_equal m hi ≡ (true, none)))
  unfolding between at_least at_most greater_than_or_equal less_than_or_equal
  between_iff lo hi m = (λ h. ground arith, λ h. ground arith)
