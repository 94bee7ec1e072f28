-- ===== src/Db/Orders/Projection.antt =====
-- The projection of orders, as an instance of Db/Projection (src/db/repo/orders.rs).
use bestiario.Prelude.{
  String, ◌≡◌, refl, ◌≢◌, Option, none, some, List, Option-cases, inl, inr, arith,
}
use bestiario.Prelude.Int.{ℤ, ltb_ℤ}
use bestiario.Prelude.Best.{IsWeakOrder, first, first-In, first-some, first-SameRows}
use bestiario.Prelude.Lists.{In, IsKeyed, SameRows, collect, In-collect, SameRows-collect}
use bestiario.Db.Projection.{Projection, project, refresh, project-SameRows}
use bestiario.Db.Table.{Table, newer, newer-IsWeakOrder, newer_tie}
use bestiario.Ingest.Parse.Order.{OrderVersion}
use bestiario.Db.Orders.{Order, least, greatest, success_time, canceled_time, row}

pub least-IsWeakOrder : IsWeakOrder ltb_ℤ
least-IsWeakOrder = record { asym = λ a b h. ground arith; neg_trans = λ a b c h k. ground arith }

greatest-IsWeakOrder : IsWeakOrder (λ a b. ltb_ℤ b a)
greatest-IsWeakOrder = record {
  asym = λ a b h. ground arith;
  neg_trans = λ a b c h k. ground arith;
}

pub least-SameRows : (xs ys : List ℤ) → SameRows xs ys → least xs ≡ least ys
least-SameRows xs ys same =
    first-SameRows ltb_ℤ least-IsWeakOrder xs ys same (λ a b i j h k. ground arith)

pub greatest-SameRows : (xs ys : List ℤ) → SameRows xs ys → greatest xs ≡ greatest ys
greatest-SameRows xs ys same =
    first-SameRows (λ a b. ltb_ℤ b a) greatest-IsWeakOrder xs ys same (λ a b i j h k. ground arith)

module _ {xs ys : List OrderVersion} (same : SameRows xs ys)
    (keyed : IsKeyed (λ v. v.event_id) xs) where
  latest-SameRows :
      first (newer (λ v. v.created_at) (λ v. v.event_id)) xs
      ≡ first (newer (λ v. v.created_at) (λ v. v.event_id)) ys
  latest-SameRows =
      first-SameRows (newer (λ v. v.created_at) (λ v. v.event_id))
        (newer-IsWeakOrder (λ v. v.created_at) (λ v. v.event_id)) xs ys same
        (λ a b i j h k. keyed a b i j (newer_tie (λ v. v.created_at) (λ v. v.event_id) a b h k))

  column-SameRows : (f : OrderVersion → Option ℤ) → least (collect f xs) ≡ least (collect f ys)
  column-SameRows f = least-SameRows (collect f xs) (collect f ys) (SameRows-collect f same)

  pub row-SameRows : row xs ≡ row ys
  unfolding row
  row-SameRows = rw (
    latest-SameRows,
    column-SameRows (λ v. some v.created_at),
    greatest-SameRows (collect (λ v. some v.created_at) xs) (collect (λ v. some v.created_at) ys)
        (SameRows-collect (λ v. some v.created_at) same),
    column-SameRows success_time,
    column-SameRows canceled_time,
    column-SameRows (λ v. v.order_created_at),
  )

-- An aggregate over a column of rows that are there has a value.
module _ {V : Type 0} (at : V → ℤ) (a : V) (vs : List V) (i : In a vs) where
  pub least-some : (t : ℤ) × (least (collect (λ v. some (at v)) vs) ≡ some t)
  least-some =
      first-some ltb_ℤ (at a) (collect (λ v. some (at v)) vs)
        (In-collect (λ v. some (at v)) (at a) a vs i refl)

  pub greatest-some : (t : ℤ) × (greatest (collect (λ v. some (at v)) vs) ≡ some t)
  greatest-some =
      first-some (λ x y. ltb_ℤ y x) (at a) (collect (λ v. some (at v)) vs)
        (In-collect (λ v. some (at v)) (at a) a vs i refl)

pub row-ne-none : (a : OrderVersion) (vs : List OrderVersion) → In a vs → row vs ≢ none
unfolding row
row-ne-none a vs i h =
    let (l, el) = first-some (newer (λ v. v.created_at) (λ v. v.event_id)) a vs i in
    let (f, ef) = least-some (λ v. v.created_at) a vs i in
    let (g, eg) = greatest-some (λ v. v.created_at) a vs i in let h' = rw (el, ef, eg) at h in cc h'

pub row-some : (vs : List OrderVersion) (o : Order) → row vs ≡ some o → (a : OrderVersion) × In a vs
unfolding row
row-some vs o h = elim (Option-cases (first (newer (λ v. v.created_at) (λ v. v.event_id)) vs)) [
  | inl e ↦ let h' = rw e at h in absurd (cc h')
  | inr found ↦ let (a, e) = found in (a, first-In _ a vs e)
]

abbrev pub orders_projection : Projection OrderVersion Order
orders_projection = record {
  event_id = λ v. v.event_id;
  owner = λ v. v.order_id;
  row = row;
  same = λ xs ys same keyed. row-SameRows same keyed;
  some_row = row-ne-none;
  witness = row-some;
}

unfoldable pub refresh_projection : String → List OrderVersion → Table Order → Table Order
refresh_projection = refresh orders_projection

-- The projected row of an order is the same for two lists that hold the same versions, in any
-- order and any number of times, provided two versions of one event id in the first list are the
-- same version.
pub order_row_order_free :
    (xs ys : List OrderVersion) (order_id : String)
    → SameRows xs ys
    → IsKeyed (λ v. v.event_id) xs
    → project orders_projection xs order_id ≡ project orders_projection ys order_id
order_row_order_free = project-SameRows orders_projection
