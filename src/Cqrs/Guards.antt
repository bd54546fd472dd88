-- ===== src/Cqrs/Guards.antt =====
-- platform/cqrs: what the guards of the standard pipeline keep from the handler.
use go_boilerplate.Prelude.{
  ◌≡◌, refl, Bool, not, ◌&&◌, Option, none, some, ◌++◌, pos, ltb_ℤ, Result, err, Bool-cases, inl,
  inr, ◌⊎◌,
}
use go_boilerplate.Lineage.{Principal}
use go_boilerplate.Cqrs.{
  CommandError, CallContext, CommandKind, HandlerFunc, Pipeline, decorate, behaviors, validation,
  authorize, deadline, transaction, validatable, no_struct, struct, budgeted, checked, by_kind,
  invalid, unauthenticated, forbidden, deadline_exceeded, optional,
}

module _ {S E C R : Type 0} (ctx : CallContext) (cmd : C) (s : S) where
  -- A call that fails and changes nothing.
  abbrev Fails : HandlerFunc S E C R → Type 0
  Fails next = (e : CommandError E) × (next ctx cmd s ≡ (s, err e))

  checked-Fails : (o : Option E) (next : HandlerFunc S E C R) → Fails next → Fails (checked o next)
  checked-Fails none next f = f
  checked-Fails (some e) next f = (invalid e, refl)

  validation-Fails :
      (kind : C → CommandKind E) (next : HandlerFunc S E C R)
      → Fails next
      → Fails (validation kind next)
  unfolding validation
  validation-Fails kind next f = go (kind cmd)
    where
      go : (k : CommandKind E) → Fails (by_kind k next)
      go (validatable o) = checked-Fails o next f
      go no_struct = f
      go (struct o) = checked-Fails o next f

  budgeted_fails :
      (is_deadline : CommandError E → Bool) (r : S × Result (CommandError E) R) (e : CommandError E)
      → r ≡ (s, err e)
      → (e' : CommandError E) × (budgeted is_deadline ctx r ≡ (s, err e'))
  budgeted_fails is_deadline r e failed =
      elim (Bool-cases (not ctx.caller_done && (ctx.budget_spent && is_deadline e))) [
        | inl late ↦ (deadline_exceeded, rw (failed, late) refl)
        | inr early ↦ (e, rw (failed, early) refl)
      ]

  deadline-Fails :
      (is_deadline : CommandError E → Bool) (next : HandlerFunc S E C R)
      → Fails next
      → Fails (deadline is_deadline next)
  unfolding deadline
  deadline-Fails is_deadline next (e, failed) = budgeted_fails is_deadline (next ctx cmd s) e failed

  authorize-Fails :
      (policy : Principal → C → Option E) (next : HandlerFunc S E C R)
      → (ctx.principal ≡ none)
        ⊎ ((who : Principal) × (e : E) × (ctx.principal ≡ some who) × (policy who cmd ≡ some e))
      → Fails (authorize policy next)
  unfolding authorize
  authorize-Fails policy next (inl nobody) = (unauthenticated, rw nobody refl)
  authorize-Fails policy next (inr (who, e, known, refused)) =
      (forbidden e, rw known (rw refused refl))

  -- With an authorization policy, a command with no principal, or one that the policy refuses, fails
  -- and changes nothing, whatever the handler, the caching, the transaction and the further behaviours
  -- of the pipeline do.
  pub unauthorized_blocked :
      (is_deadline : CommandError E → Bool) (kind : C → CommandKind E) (p : Pipeline S E C R)
      (h : HandlerFunc S E C R) (policy : Principal → C → Option E)
      → p.authz ≡ some policy
      → (ctx.principal ≡ none)
        ⊎ ((who : Principal) × (e : E) × (ctx.principal ≡ some who) × (policy who cmd ≡ some e))
      → (e : CommandError E) × (decorate (behaviors is_deadline kind p) h ctx cmd s ≡ (s, err e))
  unfolding decorate behaviors
  unauthorized_blocked is_deadline kind p h policy guarded refused =
      let inner : HandlerFunc S E C R =
        decorate (optional (λ b. b) p.caching ++ (optional transaction p.tx ++ p.extra)) h in
      let shut =
        validation-Fails kind (authorize policy inner) (authorize-Fails policy inner refused) in
      elim (Bool-cases (ltb_ℤ (pos 0) p.deadline)) [
        | inl budget ↦
            rw (guarded, budget)
              (deadline-Fails is_deadline (validation kind (authorize policy inner)) shut)
        | inr free ↦ rw (guarded, free) shut
      ]
