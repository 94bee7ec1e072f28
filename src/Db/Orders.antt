-- ===== src/Db/Orders.antt =====
-- `order_versions`, the history, and `orders`, the projection of it (src/db/repo/orders.rs).
pub mod Projection
use bestiario.Prelude.{
  ℕ, String, Bool, Option, none, some, and_then, List, map, str_eq, if◌then◌else◌,
}
use bestiario.Prelude.Int.{ℤ, ltb_ℤ}
use bestiario.Prelude.Best.{first}
use bestiario.Prelude.Float.{F64}
use bestiario.Prelude.Lists.{select, collect}
use bestiario.Prelude.Map.{distinct}
use bestiario.Db.Table.{Table, put, newer, insert_or_ignore}
use bestiario.Ingest.Parse.Order.{
  Direction, Status, success, canceled, FiatAmount, fixed, range, OrderVersion,
}
use bestiario.Network.{Network}

-- A row of `orders`.
pub record Order : Type 0 where
  pub order_id : String
  pub pubkey : String
  pub first_seen_at : ℤ
  pub last_updated_at : ℤ
  pub final_status : Status
  pub direction : Direction
  pub fiat_code : String
  pub amount_sats : ℤ
  pub fiat_amount : Option F64
  pub payment_methods : List String
  pub premium : F64
  pub network : Option Network
  pub success_at : Option ℤ
  pub canceled_at : Option ℤ
  pub order_created_at : Option ℤ

unfoldable pub insert_version : OrderVersion → List OrderVersion → List OrderVersion
insert_version version versions = insert_or_ignore (λ v. v.event_id) version versions

-- `MIN` and `MAX` over a column, NULLs left out.
abbrev pub least : List ℤ → Option ℤ
least = first ltb_ℤ

abbrev pub greatest : List ℤ → Option ℤ
greatest = first (λ a b. ltb_ℤ b a)

-- `CASE WHEN status = … THEN created_at END`
abbrev pub success_time : OrderVersion → Option ℤ
success_time version = elim version.status [ success ↦ some version.created_at | _ ↦ none ]

abbrev pub canceled_time : OrderVersion → Option ℤ
canceled_time version = elim version.status [ canceled ↦ some version.created_at | _ ↦ none ]

abbrev pub fixed_amount : FiatAmount → Option F64
fixed_amount (fixed amount) = some amount
fixed_amount (range min max) = none

-- The row that the versions of one order give: `latest` joined with `span`.
unfoldable pub row : List OrderVersion → Option Order
row versions = and_then (first (newer (λ v. v.created_at) (λ v. v.event_id)) versions) λ latest.
    and_then (least (collect (λ v. some v.created_at) versions)) λ first_seen_at.
      and_then (greatest (collect (λ v. some v.created_at) versions)) λ last_updated_at.
        some (record {
          order_id = latest.order_id;
          pubkey = latest.pubkey;
          first_seen_at = first_seen_at;
          last_updated_at = last_updated_at;
          final_status = latest.status;
          direction = latest.direction;
          fiat_code = latest.fiat_code;
          amount_sats = latest.amount_sats;
          fiat_amount = fixed_amount latest.fiat;
          payment_methods = latest.payment_methods;
          premium = latest.premium;
          network = latest.network;
          success_at = least (collect success_time versions);
          canceled_at = least (collect canceled_time versions);
          order_created_at = least (collect (λ v. v.order_created_at) versions);
        })

-- `SELECT DISTINCT order_id FROM order_versions ORDER BY order_id`
unfoldable pub ids : List OrderVersion → List String
unfolding distinct
ids versions = distinct (map (λ v. v.order_id) versions)
