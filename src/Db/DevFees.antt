-- ===== src/Db/DevFees.antt =====
-- `dev_fees`: one row for each payment, flagged where it is not the first of its order
-- (src/db/repo/dev_fees.rs).
pub mod Flags
use bestiario.Prelude.{
  ℕ, String, Bool, false, not, Option, none, some, List, map, ◌==◌, str_eq, if◌then◌else◌,
}
use bestiario.Prelude.Int.{ℤ}
use bestiario.Prelude.Best.{first}
use bestiario.Prelude.Lists.{select}
use bestiario.Prelude.Map.{distinct}
use bestiario.Db.Table.{older, insert_or_ignore}
use bestiario.Ingest.Parse.DevFee.{DevFee}

pub record StoredDevFee : Type 0 where
  pub fee : DevFee
  pub is_duplicate : Bool

abbrev pub paid_at : StoredDevFee → ℤ
paid_at row = row.fee.created_at

abbrev pub event_id : StoredDevFee → ℕ
event_id row = row.fee.event_id

abbrev pub of_order : String → StoredDevFee → Bool
of_order order_id row = str_eq row.fee.order_id order_id

-- `SELECT event_id FROM dev_fees WHERE order_id = ?1 ORDER BY created_at, event_id LIMIT 1`
abbrev pub first_paid : String → List StoredDevFee → Option StoredDevFee
first_paid order_id rows = first (older paid_at event_id) (select (of_order order_id) rows)

-- `CASE WHEN event_id = (…) THEN 0 ELSE 1 END`; no row makes the comparison NULL, which is ELSE.
abbrev pub is_first : Option StoredDevFee → StoredDevFee → Bool
is_first none row = false
is_first (some earliest) row = event_id row == event_id earliest

abbrev pub flagged : String → Option StoredDevFee → StoredDevFee → StoredDevFee
flagged order_id earliest row =
    if of_order order_id row then record row { is_duplicate = not (is_first earliest row) } else row

unfoldable pub refresh_duplicates : String → List StoredDevFee → List StoredDevFee
refresh_duplicates order_id rows = map (flagged order_id (first_paid order_id rows)) rows

unfoldable pub insert : DevFee → List StoredDevFee → List StoredDevFee
unfolding refresh_duplicates
insert fee rows =
    refresh_duplicates fee.order_id
      (insert_or_ignore event_id (record { fee = fee; is_duplicate = false }) rows)

-- `SELECT DISTINCT order_id FROM dev_fees ORDER BY order_id`
unfoldable pub order_ids : List StoredDevFee → List String
unfolding distinct
order_ids rows = distinct (map (λ row. row.fee.order_id) rows)
