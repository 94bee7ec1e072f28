-- ===== src/Publish/Restatement/Snapshot.antt =====
-- A whole snapshot against the run before it: `Snapshot::restated`
-- (crates/stats/src/publish/restatement.rs). The coverage, which is only copied, is left out.
use bestiario.Prelude.{
  String, ◌≡◌, refl, sym, ap, ◌∙◌, inl, inr, Bool, true, not, ◌&&◌, Bool-cases, some, List, [], ◌∷◌,
  ◌++◌, map, str_eq, eq_iff, if◌then◌else◌, subst,
}
use bestiario.Prelude.Lists.{In}
use bestiario.Prelude.Map.{
  Map, get, insert, get-insert, insert_key, In-insert_key, In-insert_key_self,
}
use bestiario.Publish.Restatement.{
  Clock, Run, Document, Previous, Because, Republish, no, sends_unchanged, recorded, against,
}
use bestiario.Publish.Restatement.Kept.{Reads, IsKnown, against_again}

pub record Restated (J : Type 0) : Type 0 where
  pub documents : List (Document J)
  pub not_sent : List String
  pub state : Map Previous

module _ {J : Type 0} (clock : Clock) (run : Run) (previous : Map Previous) (because : Because)
    (republish : Republish) where
  abbrev pub verdict : Document J → Document J × Bool
  verdict document = against clock run document (get document.address.text previous) because

  -- One turn of the loop.
  unfoldable pub restate_one : Document J → Restated J → Restated J
  restate_one document acc = record {
    documents = acc.documents ++ (verdict document).0 ∷ [];
    not_sent =
        if (verdict document).1 && not (sends_unchanged republish (verdict document).0)
        then insert_key document.address.text acc.not_sent
        else acc.not_sent;
    state = insert document.address.text (recorded clock (verdict document).0) acc.state;
  }

  unfoldable pub restate_each : List (Document J) → Restated J → Restated J
  restate_each [] acc = acc
  restate_each (document ∷ documents) acc = restate_each documents (restate_one document acc)

  unfoldable pub restated_snapshot : List (Document J) → Restated J
  unfolding restate_each
  restated_snapshot documents =
      restate_each documents (record { documents = []; not_sent = []; state = [] })

abbrev pub text_of : {J : Type 0} → Document J → String
text_of document = document.address.text

-- No two documents have one address.
abbrev pub IsApart : {J : Type 0} → List (Document J) → Type 0
IsApart [] = Unit
IsApart (document ∷ documents) =
    (In (text_of document) (map text_of documents) → ⊥) × IsApart documents

module _ {J : Type 0} (clock : Clock) (run : Run) (previous : Map Previous) (because : Because)
    (republish : Republish) where
  state-untouched :
      (k : String) (documents : List (Document J)) (acc : Restated J)
      → (In k (map text_of documents) → ⊥)
      → get k (restate_each clock run previous because republish documents acc).state
        ≡ get k acc.state
  unfolding restate_each restate_one
  state-untouched k [] acc out = refl
  state-untouched k (d ∷ ds) acc out =
      state-untouched k ds (restate_one clock run previous because republish d acc)
        (λ i. out (inr i))
      ∙ get-insert (text_of d) k (recorded clock (verdict clock run previous because republish d).0)
          acc.state
      ∙ elim (Bool-cases (str_eq (text_of d) k)) [
        | inl t ↦ absurd (out (inl (sym ((eq_iff (text_of d) k).0 t))))
        | inr t ↦ rw t refl
      ]

  state-get :
      (d : Document J) (documents : List (Document J)) (acc : Restated J)
      → In d documents
      → IsApart documents
      → get (text_of d) (restate_each clock run previous because republish documents acc).state
        ≡ some (recorded clock (verdict clock run previous because republish d).0)
  unfolding restate_each restate_one
  state-get d [] acc i apart = absurd i
  state-get d (x ∷ ds) acc (inl e) (out, apart) =
      subst
        (λ y.
          get (text_of y) (restate_each clock run previous because republish (x ∷ ds) acc).state
          ≡ some (recorded clock (verdict clock run previous because republish y).0))
        (sym e)
        (state-untouched (text_of x) ds (restate_one clock run previous because republish x acc) out
          ∙ get-insert (text_of x) (text_of x)
              (recorded clock (verdict clock run previous because republish x).0) acc.state
          ∙ rw ((eq_iff (text_of x) (text_of x)).1 refl) refl)
  state-get d (x ∷ ds) acc (inr i) (out, apart) =
      state-get d ds (restate_one clock run previous because republish x acc) i apart

  not_sent-keeps :
      (k : String) (documents : List (Document J)) (acc : Restated J)
      → In k acc.not_sent
      → In k (restate_each clock run previous because republish documents acc).not_sent
  unfolding restate_each restate_one
  not_sent-keeps k [] acc i = i
  not_sent-keeps k (d ∷ ds) acc i =
      not_sent-keeps k ds (restate_one clock run previous because republish d acc)
        (elim (Bool-cases (
          (verdict clock run previous because republish d).1
          && not (sends_unchanged republish (verdict clock run previous because republish d).0))) [
            | inl t ↦ rw t (In-insert_key k (text_of d) acc.not_sent i)
            | inr t ↦ rw t i
          ])

  not_sent-In :
      (d : Document J) (documents : List (Document J)) (acc : Restated J)
      → In d documents
      → (verdict clock run previous because republish d).1 ≡ true
      → republish ≡ no
      → In (text_of d) (restate_each clock run previous because republish documents acc).not_sent
  unfolding restate_each restate_one sends_unchanged
  not_sent-In d [] acc i t e = absurd i
  not_sent-In d (x ∷ ds) acc (inl q) t e =
      not_sent-keeps (text_of d) ds (restate_one clock run previous because republish x acc)
        (rw q (let t' = rw q at t in rw (e, t') (In-insert_key_self (text_of x) acc.not_sent)))
  not_sent-In d (x ∷ ds) acc (inr i) t e =
      not_sent-In d ds (restate_one clock run previous because republish x acc) i t e

-- A run that restates the documents of the run before it, with no republishing asked for, sends
-- none of them again: each document, of a snapshot in which no two have one address, is among
-- those not sent, and its record (its hash, revision, time and restatement) stays as it was. The
-- record before the first of the two runs is missing or valid (a revision above 1 at a time that
-- reads back from its text), and so are the times of both runs read back.
pub snapshot_again :
    {J : Type 0} (clock : Clock) (run run' : Run) (previous : Map Previous)
    (because because' : Because) (republish : Republish) (documents : List (Document J))
    (document : Document J)
    → In document documents
    → IsApart documents
    → IsKnown clock (get (text_of document) previous)
    → Reads clock run.generated_at
    → Reads clock run'.generated_at
    → let before = restated_snapshot clock run previous because republish documents in
      let after = restated_snapshot clock run' before.state because' no documents in
      In (text_of document) after.not_sent
      × (get (text_of document) after.state ≡ get (text_of document) before.state)
unfolding restated_snapshot
snapshot_again {J} clock run run' previous because because' republish documents document i apart
      known reads reads' =
    let nothing : Restated J = record { documents = []; not_sent = []; state = [] } in
    let before = restate_each clock run previous because republish documents nothing in
    let (unchanged, same) =
      against_again clock run run' document (get (text_of document) previous) because because' known
        reads reads' in
    let e = state-get clock run previous because republish document documents nothing i apart in
    (
      not_sent-In clock run' before.state because' no document documents nothing i (rw e unchanged)
          refl,
      state-get clock run' before.state because' no document documents nothing i apart
          ∙ rw e (ap some same)
          ∙ sym e,
    )
