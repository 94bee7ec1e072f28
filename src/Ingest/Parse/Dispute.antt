-- ===== src/Ingest/Parse/Dispute.antt =====
-- Kind 38386: one published version of a dispute (src/ingest/parse/dispute.rs).
use bestiario.Prelude.{ℕ, String, Option, str_eq, if◌then◌else◌}
use bestiario.Prelude.Int.{ℤ, as_i64}
use bestiario.Prelude.Result.{ok, err, traverse, ◌>>=◌, ◌>>◌}
use bestiario.Ingest.Event.{Event}
use bestiario.Ingest.Parse.Tags.{
  Parse, unknown_value, required, optional, expect_kind, published_at,
}

abbrev pub kind_dispute : ℕ
kind_dispute = 38386

pub data Initiator : Type 0 where
  buyer seller : Initiator

pub data Status : Type 0 where
  initiated in_progress seller_refunded settled released cooperatively_canceled : Status

pub record DisputeVersion : Type 0 where
  pub event_id : ℕ
  pub dispute_id : String
  pub pubkey : String
  pub created_at : ℤ
  pub status : Status
  pub initiator : Option Initiator
  pub opened_at : Option ℤ

unfoldable pub initiator_str : Initiator → String
initiator_str buyer = "buyer"
initiator_str seller = "seller"

unfoldable pub parse_initiator : String → Parse Initiator
parse_initiator value =
    if str_eq value "buyer"
    then ok buyer
    else if str_eq value "seller"
    then ok seller
    else err (unknown_value "initiator" value "`buyer` or `seller`")

unfoldable pub status_str : Status → String
status_str initiated = "initiated"
status_str in_progress = "in-progress"
status_str seller_refunded = "seller-refunded"
status_str settled = "settled"
status_str released = "released"
status_str cooperatively_canceled = "cooperatively-canceled"

unfoldable pub parse_status : String → Parse Status
parse_status value =
    if str_eq value "initiated"
    then ok initiated
    else if str_eq value "in-progress"
    then ok in_progress
    else if str_eq value "seller-refunded"
    then ok seller_refunded
    else if str_eq value "settled"
    then ok settled
    else if str_eq value "released"
    then ok released
    else if str_eq value "cooperatively-canceled"
    then ok cooperatively_canceled
    else err (
        unknown_value "s" value
          "`initiated`, `in-progress`, `seller-refunded`, `settled`, `released` or `cooperatively-canceled`")

-- `dispute::parse`: the optional tags are read before the struct literal.
unfoldable pub parse_dispute : Event → Parse DisputeVersion
parse_dispute event = do
  expect_kind event kind_dispute
  who ← optional event "initiator"
  initiator ← traverse who parse_initiator
  opened_at ← published_at event
  dispute_id ← required event "d"
  s ← required event "s"
  status ← parse_status s
  ok (record {
    event_id = event.id;
    dispute_id = dispute_id;
    pubkey = event.pubkey;
    created_at = as_i64 event.created_at;
    status = status;
    initiator = initiator;
    opened_at = opened_at;
  })
