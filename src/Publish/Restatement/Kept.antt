-- ===== src/Publish/Restatement/Kept.antt =====
-- What is remembered of a document from one run to the next
-- (crates/stats/src/publish/restatement.rs).
use bestiario.Prelude.{
  ℕ, ◌≡◌, refl, sym, ap, ◌∙◌, inl, inr, true, Bool-cases, Option, none, some, str_eq, eq_iff, ltb,
  arith, if◌then◌else◌, subst,
}
use bestiario.Prelude.Int.{ℤ}
use bestiario.Publish.Restatement.{
  Clock, Run, Restatement, Document, Previous, first, restated, hash_of, revision_of, Because,
  because_str, previous_restated, saturating_add, first_envelope, restated_envelope,
  envelope_restatement, envelope_of, recorded, against,
}

-- The time reads back from its text.
abbrev pub Reads : Clock → ℤ → Type 0
Reads clock at = clock.parse_rfc3339 (clock.rfc3339 at) ≡ some at

-- What `Previous::restated` makes: a revision above the first, at a time that reads back.
abbrev pub IsValid : Clock → Previous → Type 0
IsValid clock (first hash updated_at) = Unit
IsValid clock (restated hash revision updated_at restatement) =
    (ltb 1 revision ≡ true) × Reads clock restatement.at

saturating_above : (r : ℕ) → ltb 1 r ≡ true → ltb 1 (saturating_add r 1) ≡ true
unfolding saturating_add
saturating_above r h = ground arith

second_revision : ltb 1 (saturating_add 1 1) ≡ true
unfolding saturating_add
second_revision = refl

module _ {J : Type 0} (clock : Clock) where
  recorded-restated :
      (run : Run) (document : Document J) (revision : ℕ) (rs : Restatement) (payload : J)
      (updated_at : ℤ)
      → ltb 1 revision ≡ true
      → Reads clock rs.at
      → recorded clock (record document {
        envelope = envelope_of clock run revision (some rs) payload;
        updated_at = updated_at;
      })
        ≡ restated document.hash revision updated_at rs
  unfolding recorded envelope_of restated_envelope envelope_restatement previous_restated
      first_envelope
  recorded-restated run document revision rs payload updated_at h k = rw (h, k, h) refl

  recorded-first :
      (run : Run) (document : Document J) (payload : J) (updated_at : ℤ)
      → recorded clock (record document {
        envelope = envelope_of clock run 1 none payload;
        updated_at = updated_at;
      })
        ≡ first document.hash updated_at
  unfolding recorded envelope_of envelope_restatement first_envelope
  recorded-first run document payload updated_at = refl

  -- What a run records of a document, from what the run before it recorded.
  abbrev pub successor : Run → Document J → Because → Previous → Previous
  successor run document because previous =
      if str_eq (hash_of previous) document.hash
      then previous
      else restated document.hash (saturating_add (revision_of previous) 1) run.generated_at
          (record { at = run.generated_at; because = because_str because })

  -- What a run records of a document that was published before: the record as it was where the
  -- hash is the same, and else the new hash, a revision one higher (kept at the greatest `u32`),
  -- and the time and the reason of the run. The record before is valid, and the time of the run
  -- reads back from its text.
  pub recorded-against :
      (run : Run) (document : Document J) (previous : Previous) (because : Because)
      → IsValid clock previous
      → Reads clock run.generated_at
      → recorded clock (against clock run document (some previous) because).0
        ≡ successor run document because previous
  unfolding against
  recorded-against run document (first hash u) because valid reads =
      elim (Bool-cases (str_eq hash document.hash)) [
        | inl t ↦ rw t (
            recorded-first run document document.envelope.payload u
            ∙ ap (λ h. first h u) (sym ((eq_iff hash document.hash).0 t)))
        | inr t ↦ rw t (
            recorded-restated run document (saturating_add 1 1) _ document.envelope.payload
              run.generated_at second_revision reads)
      ]
  recorded-against run document (restated hash r u rs) because (above, reads') reads =
      elim (Bool-cases (str_eq hash document.hash)) [
        | inl t ↦
            let q : hash ≡ document.hash = (eq_iff hash document.hash).0 t in
            rw t (
              recorded-restated run document r rs document.envelope.payload u above reads'
              ∙ ap (λ h. restated h r u rs) (sym q))
        | inr t ↦ rw t (
            recorded-restated run document (saturating_add r 1) _ document.envelope.payload
              run.generated_at (saturating_above r above) reads)
      ]

  -- A successor is valid, and has the hash of the document.
  successor-IsValid :
      (run : Run) (document : Document J) (because : Because) (previous : Previous)
      → IsValid clock previous
      → Reads clock run.generated_at
      → IsValid clock (successor run document because previous)
        × (hash_of (successor run document because previous) ≡ document.hash)
  successor-IsValid run document because (first hash u) valid reads =
      elim (Bool-cases (str_eq hash document.hash)) [
        | inl t ↦ rw t (tt, (eq_iff hash document.hash).0 t)
        | inr t ↦ rw t ((second_revision, reads), refl)
      ]
  successor-IsValid run document because (restated hash r u rs) (above, reads') reads =
      elim (Bool-cases (str_eq hash document.hash)) [
        | inl t ↦ rw t ((above, reads'), (eq_iff hash document.hash).0 t)
        | inr t ↦ rw t ((saturating_above r above, reads), refl)
      ]

  -- The first run records the document as published once.
  recorded-new :
      (run : Run) (document : Document J) (because : Because)
      → recorded clock (against clock run document none because).0
        ≡ first document.hash run.generated_at
  unfolding against recorded envelope_restatement first_envelope
  recorded-new run document because = refl

  -- Against what has its hash, a document is unchanged, and is recorded as it was.
  settled :
      (run : Run) (document : Document J) (because : Because) (previous : Previous)
      → IsValid clock previous
      → Reads clock run.generated_at
      → hash_of previous ≡ document.hash
      → ((against clock run document (some previous) because).1 ≡ true)
        × (recorded clock (against clock run document (some previous) because).0 ≡ previous)
  unfolding against
  settled run document because previous valid reads same =
      let t : str_eq (hash_of previous) document.hash ≡ true =
        (eq_iff (hash_of previous) document.hash).1 same in
      (rw t refl, recorded-against run document previous because valid reads ∙ rw t refl)

-- A previous record that is valid, or none.
abbrev pub IsKnown : Clock → Option Previous → Type 0
IsKnown clock none = Unit
IsKnown clock (some previous) = IsValid clock previous

-- A document restated twice with the same contents is unchanged the second time, and is recorded
-- as the first time, whatever the reasons given; the record before is missing or valid, and the
-- times of both runs read back from their texts.
pub against_again :
    {J : Type 0} (clock : Clock) (run run' : Run) (document : Document J)
    (previous : Option Previous) (because because' : Because)
    → IsKnown clock previous
    → Reads clock run.generated_at
    → Reads clock run'.generated_at
    → let state = recorded clock (against clock run document previous because).0 in
      ((against clock run' document (some state) because').1 ≡ true)
      × (recorded clock (against clock run' document (some state) because').0 ≡ state)
against_again clock run run' document none because because' known reads reads' =
    settled clock run' document because'
      (recorded clock (against clock run document none because).0)
      (subst (IsValid clock) (sym (recorded-new clock run document because)) tt) reads'
      (ap hash_of (recorded-new clock run document because))
against_again clock run run' document (some previous) because because' known reads reads' =
    let e = recorded-against clock run document previous because known reads in
    let (valid, same) = successor-IsValid clock run document because previous known reads in
    settled clock run' document because'
      (recorded clock (against clock run document (some previous) because).0)
      (subst (IsValid clock) (sym e) valid) reads' (ap hash_of e ∙ same)
