-- ===== src/Lineage.antt =====
-- The context that travels with a message: platform/messaging/msgctx, platform/security/auth/propagate.go
-- and platform/security/tenant, with the stamping of platform/messaging/outbox/repository.go. JSON is a
-- parameter: `read_json` and `write_json` of a map of headers and of a list of roles.
use go_boilerplate.Prelude.{
  Bool, true, false, Option, none, some, List, [], ◌∷◌, String, str_eq, if◌then◌else◌,
}
use go_boilerplate.Dict.{Dict, lookup, insert, contains}
pub mod Hops

pub record Principal : Type 0 where
  pub subject : String
  pub roles : List String

-- What the code reads from a `context.Context`; an id that is not set reads as the empty text.
pub record Context : Type 0 where
  pub correlation_id : String
  pub parent_message_id : String
  pub principal : Option Principal
  pub tenant : String

abbrev pub background : Context
background = record { correlation_id = ""; parent_message_id = ""; principal = none; tenant = "" }

-- The encoding/json functions that the code calls.
pub record Json : Type 0 where
  pub read_headers : String → Option (Dict String)
  pub write_headers : Dict String → String
  pub read_roles : String → Option (List String)
  pub write_roles : List String → String
  -- `strings.Split(raw, ",")` with the trimmed parts that are not empty.
  pub split_roles : String → List String

abbrev pub header_correlation_id : String
header_correlation_id = "correlation-id"

abbrev pub header_causation_id : String
header_causation_id = "causation-id"

abbrev pub header_principal_sub : String
header_principal_sub = "principal-sub"

abbrev pub header_principal_roles : String
header_principal_roles = "principal-roles"

abbrev pub header_tenant_id : String
header_tenant_id = "tenant-id"

-- `headers[k]` of a missing key is the empty text.
abbrev pub header_of : String → Dict String → String
header_of k h = elim (lookup k h) [ none ↦ "" | some v ↦ v ]

module _ (json : Json) where
  abbrev pub with_roles : List String → Dict String → Dict String
  with_roles [] h = h
  with_roles (r ∷ rs) h = insert header_principal_roles (json.write_roles (r ∷ rs)) h

  -- `auth.InjectHeaders`.
  unfoldable pub inject_principal : Option Principal → Dict String → Dict String
  inject_principal none h = h
  inject_principal (some p) h = with_roles p.roles (insert header_principal_sub p.subject h)

  -- The roles of a header: JSON, or the older form with commas.
  abbrev pub roles_of : String → List String
  roles_of raw =
      if str_eq raw ""
      then []
      else elim (json.read_roles raw) [ some rs ↦ rs | none ↦ json.split_roles raw ]

  -- `auth.ExtractToContext`.
  unfoldable pub extract_principal : Context → Dict String → Context
  extract_principal ctx h =
      let sub = header_of header_principal_sub h in
      if str_eq sub "" then ctx else record ctx {
        principal =
            some (record { subject = sub; roles = roles_of (header_of header_principal_roles h) });
      }

  -- `tenant.InjectHeaders` and `tenant.ExtractToContext`.
  unfoldable pub inject_tenant : Context → Dict String → Dict String
  inject_tenant ctx h = if str_eq ctx.tenant "" then h else insert header_tenant_id ctx.tenant h

  unfoldable pub extract_tenant : Context → Dict String → Context
  extract_tenant ctx h =
      let id = header_of header_tenant_id h in
      if str_eq id "" then ctx else record ctx { tenant = id }

  abbrev pub stamp_correlation : Context → String → Dict String → Dict String
  stamp_correlation ctx id h =
      if contains header_correlation_id h
      then h
      else insert header_correlation_id
          (if str_eq ctx.correlation_id "" then id else ctx.correlation_id) h

  abbrev pub stamp_causation : Context → Dict String → Dict String
  stamp_causation ctx h =
      if contains header_causation_id h
      then h
      else if str_eq ctx.parent_message_id ""
      then h
      else insert header_causation_id ctx.parent_message_id h

  abbrev pub stamp_principal : Context → Dict String → Dict String
  stamp_principal ctx h =
      if contains header_principal_sub h then h else inject_principal ctx.principal h

  abbrev pub stamp_tenant : Context → Dict String → Dict String
  stamp_tenant ctx h = if contains header_tenant_id h then h else inject_tenant ctx h

  -- The headers that `StampChainHeaders` builds.
  unfoldable pub stamp : Context → String → Dict String → Dict String
  stamp ctx id h =
      stamp_tenant ctx (stamp_principal ctx (stamp_causation ctx (stamp_correlation ctx id h)))

  -- `StampChainHeaders` of a message with the id and the headers as they stand in its row: headers
  -- that are no JSON object stay as they are.
  unfoldable pub stamp_chain_headers : Context → String → String → String
  unfolding stamp
  stamp_chain_headers ctx id headers =
      if str_eq headers ""
      then json.write_headers (stamp ctx id [])
      else elim (json.read_headers headers) [
        | none ↦ headers
        | some h ↦ json.write_headers (stamp ctx id h)
      ]
