-- ===== src/Audit/Tamper.antt =====
-- platform/security/audit: what `VerifyChain` shows of a table that someone else may have written.
use mathlib.Core.Path.{subst}
use go_boilerplate.Prelude.{
  suc, ◌+◌, ◌≡◌, ◌≢◌, refl, sym, ap, ◌∙◌, List, [], ◌∷◌, ◌++◌, length, Bytes, arith, Bool-cases,
  inl, inr, ◌⊎◌,
}
use go_boilerplate.Audit.{AuditRow, PgStore, genesis_root}
use go_boilerplate.Audit.Hash.{bytes_equal, keyed_hash, compute_entry_hash}
use go_boilerplate.Audit.Encoding.{Content, ContentFits, SameContent, encoded, canonical_inj}
use go_boilerplate.Audit.Verify.{expected_of, or_empty}
use go_boilerplate.Audit.Clean.{Linked}
use go_boilerplate.Audit.Verified.{bytes_equal_iff}

-- Two different inputs with one digest, or an input whose digest is the root.
abbrev pub IsBroken : (Bytes → Bytes) → Type 0
IsBroken digest =
    ((x : Bytes) × (y : Bytes) × (x ≢ y) × (digest x ≡ digest y))
    ⊎ ((x : Bytes) × (digest x ≡ genesis_root))

module _ {J : Type 0} (store : PgStore J) where
  abbrev pub content_of : AuditRow J → Content
  content_of r = record {
    who = r.row_actor;
    what = r.row_action;
    whom = r.row_subject;
    when = r.created_at;
    pairs = or_empty (store.codec.read r.row_metadata);
  }

  abbrev pub digest : Bytes → Bytes
  digest = keyed_hash store.crypto store.chain_key

  abbrev pub RowsFit : List (AuditRow J) → Type 0
  RowsFit [] = Unit {0}
  RowsFit (r ∷ rs) = ContentFits (content_of r) × RowsFit rs

  -- The same entries, in the same order.
  abbrev pub SameRows : List (AuditRow J) → List (AuditRow J) → Type 0
  SameRows [] [] = Unit {0}
  SameRows [] (s ∷ ss) = ⊥
  SameRows (r ∷ rs) [] = ⊥
  SameRows (r ∷ rs) (s ∷ ss) = SameContent (content_of r) (content_of s) × SameRows rs ss

  -- A chain from its last row back.
  abbrev Back : List (AuditRow J) → Bytes → Type 0
  Back [] h = h ≡ genesis_root
  Back (r ∷ rs) h = (r.entry_hash ≡ h) × (expected_of store r ≡ r.entry_hash) × Back rs r.prev_hash

  abbrev rev_onto : List (AuditRow J) → List (AuditRow J) → List (AuditRow J)
  rev_onto [] acc = acc
  rev_onto (r ∷ rs) acc = rev_onto rs (r ∷ acc)

  Linked-Back :
      (p : Bytes) (rs acc : List (AuditRow J)) (h : Bytes)
      → Linked store p rs h
      → Back acc p
      → Back (rev_onto rs acc) h
  Linked-Back p [] acc h l b = subst (Back acc) l b
  Linked-Back p (r ∷ rs) acc h (prev, own, l) b =
      Linked-Back r.entry_hash rs (r ∷ acc) h l (refl, own, subst (Back acc) (sym prev) b)

  RowsFit-rev : (rs acc : List (AuditRow J)) → RowsFit rs → RowsFit acc → RowsFit (rev_onto rs acc)
  RowsFit-rev [] acc f g = g
  RowsFit-rev (r ∷ rs) acc (f, fs) g = RowsFit-rev rs (r ∷ acc) fs (f, g)

  length-rev_onto : (rs acc : List (AuditRow J)) → length (rev_onto rs acc) ≡ length rs + length acc
  length-rev_onto [] acc = omega arith
  length-rev_onto (r ∷ rs) acc = omega (arith, length-rev_onto rs (r ∷ acc))

  length-SameRows : (rs ss : List (AuditRow J)) → SameRows rs ss → length rs ≡ length ss
  length-SameRows [] [] s = refl
  length-SameRows [] (x ∷ ss) s = absurd s
  length-SameRows (r ∷ rs) [] s = absurd s
  length-SameRows (r ∷ rs) (x ∷ ss) (s, t) = ap suc (length-SameRows rs ss t)

  SameRows-rev :
      (rs ss acc bcc : List (AuditRow J))
      → length acc ≡ length bcc
      → SameRows (rev_onto rs acc) (rev_onto ss bcc)
      → SameRows rs ss × SameRows acc bcc
  SameRows-rev [] [] acc bcc l s = (tt, s)
  SameRows-rev [] (x ∷ ss) acc bcc l s =
      absurd
        (omega (arith, length-SameRows acc (rev_onto ss (x ∷ bcc)) s, length-rev_onto ss (x ∷ bcc)))
  SameRows-rev (r ∷ rs) [] acc bcc l s =
      absurd
        (omega (arith, length-SameRows (rev_onto rs (r ∷ acc)) bcc s, length-rev_onto rs (r ∷ acc)))
  SameRows-rev (r ∷ rs) (x ∷ ss) acc bcc l s =
      let (rest, (same, more)) = SameRows-rev rs ss (r ∷ acc) (x ∷ bcc) (ap suc l) s in
      ((same, rest), more)

  module _ (sized : (x : Bytes) → length (digest x) ≡ 32) where
    length-Back : (rs : List (AuditRow J)) (h : Bytes) → Back rs h → length h ≡ 32
    unfolding compute_entry_hash
    length-Back [] h b = ap length b
    length-Back (r ∷ rs) h (tip, own, b) =
        ap length (sym tip) ∙ ap length (sym own) ∙ sized (r.prev_hash ++ encoded (content_of r))

    -- Two chains with one end hold the same entries, or the digest is broken.
    same-Back :
        (rs ss : List (AuditRow J)) (h : Bytes)
        → Back rs h
        → Back ss h
        → RowsFit rs
        → RowsFit ss
        → SameRows rs ss ⊎ IsBroken digest
    unfolding compute_entry_hash
    same-Back [] [] h b c f g = inl tt
    same-Back [] (s ∷ ss) h b (tip, own, c) f g =
        inr (inr (s.prev_hash ++ encoded (content_of s), own ∙ tip ∙ b))
    same-Back (r ∷ rs) [] h (tip, own, b) c f g =
        inr (inr (r.prev_hash ++ encoded (content_of r), own ∙ tip ∙ c))
    same-Back (r ∷ rs) (s ∷ ss) h (tip, own, b) (tip', own', c) (f, fs) (g, gs) =
        let x = r.prev_hash ++ encoded (content_of r) in
        let y = s.prev_hash ++ encoded (content_of s) in
        elim (Bool-cases (bytes_equal x y)) [
          | inr apart ↦ inr (
              inl
                (x, y, λ e. cc (apart, (bytes_equal_iff x y).1 e), own ∙ tip ∙ sym tip' ∙ sym own'))
          | inl same ↦
              let lengths = length-Back rs r.prev_hash b ∙ sym (length-Back ss s.prev_hash c) in
              let (prevs, content) =
                canonical_inj r.prev_hash s.prev_hash (content_of r) (content_of s) lengths f g
                  ((bytes_equal_iff x y).0 same) in
              elim (same-Back rs ss r.prev_hash b (subst (Back ss) (sym prevs) c) fs gs) [
                | inl rest ↦ inl (content, rest)
                | inr bad ↦ inr bad
              ]
        ]

    pub same-Linked :
        (rs ss : List (AuditRow J)) (h : Bytes)
        → Linked store genesis_root rs h
        → Linked store genesis_root ss h
        → RowsFit rs
        → RowsFit ss
        → SameRows rs ss ⊎ IsBroken digest
    same-Linked rs ss h l k f g =
        elim (same-Back (rev_onto rs []) (rev_onto ss []) h
          (Linked-Back genesis_root rs [] h l refl) (Linked-Back genesis_root ss [] h k refl)
          (RowsFit-rev rs [] f tt) (RowsFit-rev ss [] g tt)) [
            | inl same ↦ inl (SameRows-rev rs ss [] [] refl same).0
            | inr bad ↦ inr bad
          ]
