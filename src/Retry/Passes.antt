-- ===== src/Retry/Passes.antt =====
-- platform/messaging/retry/consumer.go: one pass over the records of a partition.
use mathlib.Core.List.{append_assoc}
use go_boilerplate.Prelude.{
  ℕ, suc, ◌≡◌, refl, ap, ◌∙◌, Bool, true, false, Option, none, some, List, [], ◌∷◌, ◌++◌, String,
  eq_iff, ℤ, arith,
}
use go_boilerplate.Retry.{Bytes, Record}
use go_boilerplate.Retry.Escalator.{Escalator}
use go_boilerplate.Retry.Redrive.{
  TopicPartition, same_tp, HeldBatch, RetryConsumer, at_tp, RedriveEnv, Verdict, settled,
  hold_until, redrive_one, redrive, go_on_or_hold, hold_rest, is_held, process_records,
}

abbrev pub held_records : Option HeldBatch → List Record
held_records none = []
held_records (some b) = b.records

abbrev pub holds : Option HeldBatch → Bool
holds none = false
holds (some b) = true

pub same_tp_eq : (a b : TopicPartition) → same_tp a b ≡ true → a ≡ b
same_tp_eq a b h = ground (arith, eq_iff a.tp_topic b.tp_topic)

pub same_tp_self : (a : TopicPartition) → same_tp a a ≡ true
same_tp_self a = ground (arith, (eq_iff a.tp_topic a.tp_topic).1 refl)

abbrev rest_of : Option (List Record × ℤ) → List Record
rest_of none = []
rest_of (some (rs, due)) = rs

module _ (text : Bytes → String) where
  -- The settled records come first, and the rest is held.
  redrive_splits :
      (env : RedriveEnv) (i : ℕ) (rs done : List Record) (e : Escalator)
      → let (e', done', rest) = redrive text env i rs done e in done' ++ rest_of rest ≡ done ++ rs
  unfolding redrive
  redrive_splits env i [] done e = refl
  redrive_splits env i (r ∷ rs) done e =
      go (redrive text env (suc i) rs (done ++ r ∷ [])) (redrive_one text env i r e)
        (λ e'. redrive_splits env (suc i) rs (done ++ r ∷ []) e' ∙ append_assoc done (r ∷ []) rs)
    where
      go :
          (next : Escalator → Escalator × List Record × Option (List Record × ℤ))
          (v : Escalator × Verdict)
          → ((e' : Escalator) → (next e').1 ++ rest_of (next e').2 ≡ done ++ r ∷ rs)
          → (go_on_or_hold text done (r ∷ rs) next v).1
              ++ rest_of (go_on_or_hold text done (r ∷ rs) next v).2
            ≡ done ++ r ∷ rs
      go next (e', settled) ih = ih e'
      go next (e', hold_until due) ih = refl

  -- The processing of a partition that holds nothing, with the paused flag as it should be set after it.
  pub process_records-Kept :
      (env : RedriveEnv) (tp : TopicPartition) (rs : List Record) (c : RetryConsumer)
      (d : List Record)
      → c.held tp ≡ none
      → c.committed tp ++ rs ≡ d
      → let (c', h) = process_records text env tp rs c in
        (c'.committed tp ++ held_records (c'.held tp) ≡ d)
        × (holds (c'.held tp) ≡ h)
        × (h ≡ true → c'.paused tp ≡ true)
        × (h ≡ false → c'.paused ≡ c.paused)
  unfolding process_records
  process_records-Kept env tp rs c d free e = go out.2 (redrive_splits env 0 rs [] c.esc)
    where
      out : Escalator × List Record × Option (List Record × ℤ)
      out = redrive text env 0 rs [] c.esc

      go :
          (h : Option (List Record × ℤ))
          → out.1 ++ rest_of h ≡ rs
          → let c' = hold_rest text tp h (record c {
            esc = out.0;
            committed = at_tp tp (c.committed tp ++ out.1) c.committed;
          }) in
            (c'.committed tp ++ held_records (c'.held tp) ≡ d)
            × (holds (c'.held tp) ≡ is_held text h)
            × (is_held text h ≡ true → c'.paused tp ≡ true)
            × (is_held text h ≡ false → c'.paused ≡ c.paused)
      go none split =
          rw (same_tp_self tp, free)
            (
              append_assoc (c.committed tp) out.1 [] ∙ ap (λ l. c.committed tp ++ l) split ∙ e,
              refl,
              λ k. cc,
              λ k. refl,
            )
      go (some (left, due)) split = rw (same_tp_self tp) (
        append_assoc (c.committed tp) out.1 left ∙ ap (λ l. c.committed tp ++ l) split ∙ e,
        refl,
        λ k. refl,
        λ k. cc,
      )

  pub process_records-other :
      (env : RedriveEnv) (tp t : TopicPartition) (rs : List Record) (c : RetryConsumer)
      → same_tp tp t ≡ false
      → let c' = (process_records text env tp rs c).0 in
        (c'.committed t ≡ c.committed t)
        × (c'.held t ≡ c.held t)
        × (c'.paused t ≡ c.paused t)
        × (c'.delivered ≡ c.delivered)
  unfolding process_records
  process_records-other env tp t rs c apart = go (redrive text env 0 rs [] c.esc).2
    where
      out : Escalator × List Record × Option (List Record × ℤ)
      out = redrive text env 0 rs [] c.esc

      go :
          (h : Option (List Record × ℤ))
          → let c' = hold_rest text tp h (record c {
            esc = out.0;
            committed = at_tp tp (c.committed tp ++ out.1) c.committed;
          }) in
            (c'.committed t ≡ c.committed t)
            × (c'.held t ≡ c.held t)
            × (c'.paused t ≡ c.paused t)
            × (c'.delivered ≡ c.delivered)
      go none = rw apart (refl, refl, refl, refl)
      go (some (left, due)) = rw apart (refl, refl, refl, refl)

  pub process_records-delivered :
      (env : RedriveEnv) (tp : TopicPartition) (rs : List Record) (c : RetryConsumer)
      → (process_records text env tp rs c).0.delivered ≡ c.delivered
  unfolding process_records
  process_records-delivered env tp rs c = go (redrive text env 0 rs [] c.esc).2
    where
      out : Escalator × List Record × Option (List Record × ℤ)
      out = redrive text env 0 rs [] c.esc

      go :
          (h : Option (List Record × ℤ))
          → (hold_rest text tp h (record c {
            esc = out.0;
            committed = at_tp tp (c.committed tp ++ out.1) c.committed;
          })).delivered
            ≡ c.delivered
      go none = refl
      go (some (left, due)) = refl

  pub at_tp_self {ℓ} :
      {A : Type ℓ} (tp : TopicPartition) (a : A) (f : TopicPartition → A) → at_tp tp a f tp ≡ a
  at_tp_self tp a f = rw (same_tp_self tp) refl

  pub at_tp-other {ℓ} :
      {A : Type ℓ} (tp t : TopicPartition) (a : A) (f : TopicPartition → A)
      → same_tp tp t ≡ false
      → at_tp tp a f t ≡ f t
  at_tp-other tp t a f apart = rw apart refl
