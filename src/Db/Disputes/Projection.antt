-- ===== src/Db/Disputes/Projection.antt =====
-- The projection of disputes, as an instance of Db/Projection (src/db/repo/disputes.rs).
use bestiario.Prelude.{
  String, ◌≡◌, ◌≢◌, subst, arith, Option, none, some, List, Option-cases, inl, inr,
}
use bestiario.Prelude.Best.{first-In, first-some, first-SameRows}
use bestiario.Prelude.Lists.{In, IsKeyed, SameRows, collect, collect-In, SameRows-collect}
use bestiario.Db.Projection.{Projection, project, refresh, project-SameRows}
use bestiario.Db.Table.{Table, newer, newer-IsWeakOrder, newer_tie}
use bestiario.Db.Orders.Projection.{greatest-SameRows, greatest-some}
use bestiario.Db.Disputes.{Dispute, latest, has_opened_at, has_initiator, row}
use bestiario.Ingest.Parse.Dispute.{DisputeVersion}

latest-SameRows :
    (xs ys : List DisputeVersion)
    → SameRows xs ys
    → IsKeyed (λ v. v.event_id) xs
    → latest xs ≡ latest ys
latest-SameRows xs ys same keyed =
    first-SameRows (newer (λ v. v.created_at) (λ v. v.event_id))
      (newer-IsWeakOrder (λ v. v.created_at) (λ v. v.event_id)) xs ys same
      (λ a b i j h k. keyed a b i j (newer_tie (λ v. v.created_at) (λ v. v.event_id) a b h k))

-- A filter by `IS NOT NULL` keeps rows as they are.
IsKeyed-collect :
    (f : DisputeVersion → Option DisputeVersion) (xs : List DisputeVersion)
    → ((a b : DisputeVersion) → f a ≡ some b → a ≡ b)
    → IsKeyed (λ v. v.event_id) xs
    → IsKeyed (λ v. v.event_id) (collect f xs)
IsKeyed-collect f xs same keyed a b i j e =
    let (a', ia, ea) = collect-In f a xs i in
    let (b', ib, eb) = collect-In f b xs j in
    keyed a b (subst (λ v. In v xs) (same a' a ea) ia) (subst (λ v. In v xs) (same b' b eb) ib) e

has_opened_at_same : (a b : DisputeVersion) → has_opened_at a ≡ some b → a ≡ b
has_opened_at_same a b h = ground arith

has_initiator_same : (a b : DisputeVersion) → has_initiator a ≡ some b → a ≡ b
has_initiator_same a b h = ground arith

module _ {xs ys : List DisputeVersion} (same : SameRows xs ys)
    (keyed : IsKeyed (λ v. v.event_id) xs) where
  pub row-SameRows : row xs ≡ row ys
  unfolding row
  row-SameRows = rw (
    latest-SameRows xs ys same keyed,
    greatest-SameRows (collect (λ v. some v.created_at) xs) (collect (λ v. some v.created_at) ys)
        (SameRows-collect (λ v. some v.created_at) same),
    latest-SameRows (collect has_opened_at xs) (collect has_opened_at ys)
        (SameRows-collect has_opened_at same)
        (IsKeyed-collect has_opened_at xs has_opened_at_same keyed),
    latest-SameRows (collect has_initiator xs) (collect has_initiator ys)
        (SameRows-collect has_initiator same)
        (IsKeyed-collect has_initiator xs has_initiator_same keyed),
  )

pub row-ne-none : (a : DisputeVersion) (vs : List DisputeVersion) → In a vs → row vs ≢ none
unfolding row
row-ne-none a vs i h =
    let (l, el) = first-some (newer (λ v. v.created_at) (λ v. v.event_id)) a vs i in
    let (g, eg) = greatest-some (λ v. v.created_at) a vs i in let h' = rw (el, eg) at h in cc h'

pub row-some :
    (vs : List DisputeVersion) (o : Dispute) → row vs ≡ some o → (a : DisputeVersion) × In a vs
unfolding row
row-some vs o h = elim (Option-cases (latest vs)) [
  | inl e ↦ let h' = rw e at h in absurd (cc h')
  | inr found ↦ let (a, e) = found in (a, first-In _ a vs e)
]

abbrev pub disputes_projection : Projection DisputeVersion Dispute
disputes_projection = record {
  event_id = λ v. v.event_id;
  owner = λ v. v.dispute_id;
  row = row;
  same = λ xs ys same keyed. row-SameRows same keyed;
  some_row = row-ne-none;
  witness = row-some;
}

unfoldable pub refresh_projection : String → List DisputeVersion → Table Dispute → Table Dispute
refresh_projection = refresh disputes_projection

-- The projected row of a dispute is the same for two lists that hold the same versions, in any
-- order and any number of times, provided two versions of one event id in the first list are the
-- same version.
pub dispute_row_order_free :
    (xs ys : List DisputeVersion) (dispute_id : String)
    → SameRows xs ys
    → IsKeyed (λ v. v.event_id) xs
    → project disputes_projection xs dispute_id ≡ project disputes_projection ys dispute_id
dispute_row_order_free = project-SameRows disputes_projection
