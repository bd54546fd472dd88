-- ===== src/Lineage/Hops.antt =====
-- The context over one hop: an event that a handler enqueues, published, consumed by the next service.
use go_boilerplate.Prelude.{
  ◌≡◌, refl, sym, false, some, List, [], ◌∷◌, String, str_eq, eq_iff, Bool-cases, inl, inr,
  if◌then◌else◌,
}
use go_boilerplate.Dict.{Dict}
use go_boilerplate.Lineage.{
  Context, Json, header_of, header_correlation_id, header_causation_id, header_principal_sub,
  header_principal_roles, header_tenant_id, inject_principal, extract_principal, inject_tenant,
  extract_tenant, stamp, background,
}

-- The optional headers, in the order in which they are stamped.
abbrev maybe : String → String → Dict String → Dict String
maybe k v rest = if str_eq v "" then rest else (k, v) ∷ rest

module _ (json : Json) where
  abbrev role_headers : List String → Dict String → Dict String
  role_headers [] rest = rest
  role_headers (r ∷ rs) rest = (header_principal_roles, json.write_roles (r ∷ rs)) ∷ rest

  -- The headers of a message that has none of its own.
  stamp-nil :
      (corr parent tenant id sub : String) (roles : List String)
      → stamp json
          (record {
            correlation_id = corr;
            parent_message_id = parent;
            principal = some (record { subject = sub; roles = roles });
            tenant = tenant;
          })
          id
          []
        ≡ (header_correlation_id, if str_eq corr "" then id else corr)
          ∷ maybe header_causation_id parent
              ((header_principal_sub, sub) ∷ role_headers roles (maybe header_tenant_id tenant []))
  unfolding stamp inject_principal inject_tenant
  stamp-nil corr parent tenant id sub [] = elim (Bool-cases (str_eq parent "")) [
    | inl p ↦ elim (Bool-cases (str_eq tenant "")) [
      | inl t ↦ rw (p, t) refl
      | inr t ↦ rw (p, t) refl
    ]
    | inr p ↦ elim (Bool-cases (str_eq tenant "")) [
      | inl t ↦ rw (p, t) refl
      | inr t ↦ rw (p, t) refl
    ]
  ]
  stamp-nil corr parent tenant id sub (r ∷ rs) = elim (Bool-cases (str_eq parent "")) [
    | inl p ↦ elim (Bool-cases (str_eq tenant "")) [
      | inl t ↦ rw (p, t) refl
      | inr t ↦ rw (p, t) refl
    ]
    | inr p ↦ elim (Bool-cases (str_eq tenant "")) [
      | inl t ↦ rw (p, t) refl
      | inr t ↦ rw (p, t) refl
    ]
  ]

module _ (json : Json)
    (reads : (rs : List String) → json.read_roles (json.write_roles rs) ≡ some rs)
    (written : (rs : List String) → str_eq (json.write_roles rs) "" ≡ false) where
  abbrev stamped : String → String → String → String → String → List String → Dict String
  stamped corr parent tenant id sub roles =
      (header_correlation_id, if str_eq corr "" then id else corr)
      ∷ maybe header_causation_id parent
          ((header_principal_sub, sub) ∷ role_headers json roles (maybe header_tenant_id tenant []))

  back :
      (corr parent tenant id sub : String) (roles : List String)
      → str_eq sub "" ≡ false
      → let h = stamped corr parent tenant id sub roles in
        (header_of header_causation_id h ≡ parent)
        × ((extract_principal json background h).principal
            ≡ some (record { subject = sub; roles = roles }))
        × ((extract_tenant json background h).tenant ≡ tenant)
  unfolding extract_principal extract_tenant
  back corr parent tenant id sub [] named = elim (Bool-cases (str_eq parent "")) [
    | inl p ↦ elim (Bool-cases (str_eq tenant "")) [
      | inl t ↦ rw (p, t, named) (sym ((eq_iff parent "").0 p), refl, sym ((eq_iff tenant "").0 t))
      | inr t ↦ rw (p, t, named) (sym ((eq_iff parent "").0 p), refl, rw t refl)
    ]
    | inr p ↦ elim (Bool-cases (str_eq tenant "")) [
      | inl t ↦ rw (p, t, named) (refl, refl, sym ((eq_iff tenant "").0 t))
      | inr t ↦ rw (p, t, named) (refl, refl, rw t refl)
    ]
  ]
  back corr parent tenant id sub (r ∷ rs) named =
      let w = written (r ∷ rs) in
      elim (Bool-cases (str_eq parent "")) [
        | inl p ↦ elim (Bool-cases (str_eq tenant "")) [
          | inl t ↦
              rw (p, t, named, w, reads (r ∷ rs))
                (sym ((eq_iff parent "").0 p), refl, sym ((eq_iff tenant "").0 t))
          | inr t ↦
              rw (p, t, named, w, reads (r ∷ rs)) (sym ((eq_iff parent "").0 p), refl, rw t refl)
        ]
        | inr p ↦ elim (Bool-cases (str_eq tenant "")) [
          | inl t ↦ rw (p, t, named, w, reads (r ∷ rs)) (refl, refl, sym ((eq_iff tenant "").0 t))
          | inr t ↦ rw (p, t, named, w, reads (r ∷ rs)) (refl, refl, rw t refl)
        ]
      ]

  -- A message that a handler enqueues with no headers of its own carries the handler's context to
  -- the next consumer: its chain, the message that caused it, its principal and its tenant. Where the
  -- handler has no chain, the message starts one under its own id.
  pub stamp_hop :
      (corr parent tenant id sub : String) (roles : List String)
      → str_eq sub "" ≡ false
      → let ctx : Context = record {
        correlation_id = corr;
        parent_message_id = parent;
        principal = some (record { subject = sub; roles = roles });
        tenant = tenant;
      } in
        let h = stamp json ctx id [] in
        (header_of header_correlation_id h ≡ (if str_eq corr "" then id else corr))
        × (header_of header_causation_id h ≡ parent)
        × ((extract_principal json background h).principal ≡ ctx.principal)
        × ((extract_tenant json background h).tenant ≡ tenant)
  stamp_hop corr parent tenant id sub roles named =
      rw (stamp-nil json corr parent tenant id sub roles) (
        let (cause, who, whose) = back corr parent tenant id sub roles named in
        (refl, cause, who, whose))
