-- ===== src/Money/Asset/Register.antt =====
-- platform/money/asset.go: what `Register` does to the definitions that the registry holds.
use go_boilerplate.Prelude.{
  ◌≡◌, ◌≢◌, true, false, none, some, List, [], ◌∷◌, arith, String, eq_iff, pos, ltb_ℤ, Option-cases,
  inl, inr,
}
use go_boilerplate.Dict.{lookup, lookup-insert}
use go_boilerplate.Money.Asset.{Asset, Registry, register, same_definition, lookup_asset}

same_definition_eq : (a b : Asset) → same_definition a b ≡ true → a ≡ b
unfolding same_definition
same_definition_eq a b h = ground (arith, eq_iff a.code b.code)

same_definition_refl : (a : Asset) → same_definition a a ≡ true
unfolding same_definition
same_definition_refl a = ground (arith, eq_iff a.code a.code)

register_stable :
    (a : Asset) (reg : Registry) (c : String) {d : Asset}
    → lookup_asset c reg ≡ some d
    → lookup_asset c (register a reg).0 ≡ some d
unfolding register
register_stable a reg c {d = d} h = elim (Option-cases (lookup a.code reg)) [
  | inl missing ↦ ground (arith, lookup-insert a.code c a reg, eq_iff a.code c)
  | inr (e, found) ↦
      ground (arith, lookup-insert a.code c a reg, eq_iff a.code c, same_definition_eq e a)
]

unfoldable pub register_all : List Asset → Registry → Registry
register_all [] reg = reg
register_all (a ∷ rest) reg = register_all rest (register a reg).0

-- Whatever assets are registered, with success or not, a definition that the registry holds is never
-- changed or lost.
pub register_all_stable :
    (assets : List Asset) (reg : Registry) (c : String) {d : Asset}
    → lookup_asset c reg ≡ some d
    → lookup_asset c (register_all assets reg) ≡ some d
unfolding register_all
register_all_stable [] reg c h = h
register_all_stable (a ∷ rest) reg c h =
    register_all_stable rest (register a reg).0 c (register_stable a reg c h)

-- `Register` returns no error exactly when it leaves the registry with this very definition under
-- the code, for a code that is not empty and an exponent that is not negative.
pub register_ok :
    (a : Asset) (reg : Registry)
    → a.code ≢ ""
    → ltb_ℤ a.exponent (pos 0) ≡ false
    → ((register a reg).1 ≡ none → lookup_asset a.code (register a reg).0 ≡ some a)
      × (lookup_asset a.code (register a reg).0 ≡ some a → (register a reg).1 ≡ none)
unfolding register
register_ok a reg named whole = elim (Option-cases (lookup a.code reg)) [
  | inl missing ↦
      ground (arith, lookup-insert a.code a.code a reg, eq_iff a.code a.code, eq_iff a.code "")
  | inr (e, found) ↦ ground (
    arith,
    lookup-insert a.code a.code a reg,
    eq_iff a.code a.code,
    eq_iff a.code "",
    same_definition_eq e a,
    same_definition_refl a,
  )
]
