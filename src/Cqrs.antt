-- ===== src/Cqrs.antt =====
-- platform/cqrs: the behaviours around a command handler (cqrs.go, validation.go, deadline.go,
-- transaction.go) and the pipeline that orders them (pipeline.go, consistency.go). A handler changes a
-- state of any type. Tracing, logging and metrics pass the command and the result on. The caching
-- behaviour, where the pipeline has one, is a value of the pipeline and is not modelled.
use go_boilerplate.Prelude.{
  Bool, true, false, not, ◌&&◌, Option, none, some, List, [], ◌∷◌, ◌++◌, String, ℤ, pos, ltb_ℤ,
  Result, ok, err, if◌then◌else◌,
}
use go_boilerplate.Tx.{TxFaults, run_in_tx}
use go_boilerplate.Lineage.{Principal}
pub mod Guards

pub data CommandError (E : Type 0) : Type 0 where
  invalid : E → CommandError E
  unauthenticated : CommandError E
  forbidden : E → CommandError E
  deadline_exceeded : CommandError E
  handler_error : E → CommandError E
  tx_error : E → CommandError E

-- What a behaviour reads from the context: the principal, whether the caller's own context has ended,
-- and whether the budget of the pipeline has run out when the handler returns.
pub record CallContext : Type 0 where
  pub principal : Option Principal
  pub caller_done : Bool
  pub budget_spent : Bool

abbrev pub HandlerFunc : Type 0 → Type 0 → Type 0 → Type 0 → Type 0
HandlerFunc S E C R = CallContext → C → S → S × Result (CommandError E) R

abbrev pub Behavior : Type 0 → Type 0 → Type 0 → Type 0 → Type 0
Behavior S E C R = HandlerFunc S E C R → HandlerFunc S E C R

-- What `Validation` finds a command to be: its own `Validate`, a value that is no struct, or a struct
-- for the validator.
pub data CommandKind (E : Type 0) : Type 0 where
  validatable : Option E → CommandKind E
  no_struct : CommandKind E
  struct : Option E → CommandKind E

pub record ConsistencyPolicy : Type 0 where
  pub transactional : Bool
  pub sync_audit : Bool
  pub sync_ryw : Bool
  pub sync_projection : Bool

abbrev pub strong : ConsistencyPolicy
strong = record { transactional = true; sync_audit = true; sync_ryw = true; sync_projection = true }

abbrev pub eventual : ConsistencyPolicy
eventual = record {
  transactional = true;
  sync_audit = false;
  sync_ryw = false;
  sync_projection = false;
}

-- The options of the pipeline. `deadline` is in nanoseconds; `tx` holds what the driver reports.
pub record Pipeline (S E C R : Type 0) : Type 0 where
  pub deadline : ℤ
  pub authz : Option (Principal → C → Option E)
  pub caching : Option (Behavior S E C R)
  pub tx : Option (TxFaults (CommandError E))
  pub uses_outbox : Bool
  pub extra : List (Behavior S E C R)

-- A deadline error of the budget becomes `ErrDeadlineExceeded`; `is_deadline` is `errors.Is`.
abbrev pub budgeted :
    {S E R : Type 0}
    → (CommandError E → Bool)
    → CallContext
    → S × Result (CommandError E) R
    → S × Result (CommandError E) R
budgeted is_deadline ctx (s, ok r) = (s, ok r)
budgeted is_deadline ctx (s, err e) =
    if not ctx.caller_done && (ctx.budget_spent && is_deadline e)
    then (s, err deadline_exceeded)
    else (s, err e)

module _ {S E C R : Type 0} where
  -- The loop goes from the last behaviour to the first, so the first is the outermost.
  unfoldable pub decorate : List (Behavior S E C R) → HandlerFunc S E C R → HandlerFunc S E C R
  decorate [] h = h
  decorate (b ∷ bs) h = b (decorate bs h)

  abbrev pub pass_on : Behavior S E C R
  pass_on next = next

  abbrev pub checked : Option E → HandlerFunc S E C R → HandlerFunc S E C R
  checked none next ctx cmd s = next ctx cmd s
  checked (some e) next ctx cmd s = (s, err (invalid e))

  abbrev pub by_kind : CommandKind E → HandlerFunc S E C R → HandlerFunc S E C R
  by_kind (validatable e) next = checked e next
  by_kind no_struct next = next
  by_kind (struct e) next = checked e next

  unfoldable pub validation : (C → CommandKind E) → Behavior S E C R
  validation kind next ctx cmd s = by_kind (kind cmd) next ctx cmd s

  unfoldable pub deadline : (CommandError E → Bool) → Behavior S E C R
  deadline is_deadline next ctx cmd s = budgeted is_deadline ctx (next ctx cmd s)

  abbrev pub permitted : Option E → HandlerFunc S E C R → HandlerFunc S E C R
  permitted none next ctx cmd s = next ctx cmd s
  permitted (some e) next ctx cmd s = (s, err (forbidden e))

  abbrev pub as_principal :
      (Principal → C → Option E) → Option Principal → HandlerFunc S E C R → HandlerFunc S E C R
  as_principal policy none next ctx cmd s = (s, err unauthenticated)
  as_principal policy (some p) next ctx cmd s = permitted (policy p cmd) next ctx cmd s

  unfoldable pub authorize : (Principal → C → Option E) → Behavior S E C R
  authorize policy next ctx cmd s = as_principal policy ctx.principal next ctx cmd s

  unfoldable pub transaction : TxFaults (CommandError E) → Behavior S E C R
  unfolding run_in_tx
  transaction tx next ctx cmd s = run_in_tx tx (next ctx cmd) s

  abbrev pub optional : {A : Type 0} → (A → Behavior S E C R) → Option A → List (Behavior S E C R)
  optional f none = []
  optional f (some a) = f a ∷ []

  -- `Behaviors`, outermost first.
  unfoldable pub behaviors :
      (CommandError E → Bool) → (C → CommandKind E) → Pipeline S E C R → List (Behavior S E C R)
  behaviors is_deadline kind p =
      pass_on
      ∷ pass_on
      ∷ pass_on
      ∷ ((if ltb_ℤ (pos 0) p.deadline then deadline is_deadline ∷ [] else [])
          ++ (validation kind
              ∷ (optional authorize p.authz
                  ++ (optional (λ b. b) p.caching ++ (optional transaction p.tx ++ p.extra)))))

  -- `WithConsistency`: a policy without a transaction on a command that uses the outbox is a panic.
  unfoldable pub with_consistency :
      ConsistencyPolicy → TxFaults (CommandError E) → Pipeline S E C R → Option (Pipeline S E C R)
  with_consistency policy tx p =
      if not policy.transactional && p.uses_outbox
      then none
      else if policy.transactional
      then some (record p { tx = some tx })
      else some p
