-- ===== src/Tests/Derived.antt =====
-- Orders read, fees flagged and projections rebuilt, at concrete values.
use bestiario.Prelude.{◌≡◌, refl, true, false, some, none, [], ◌∷◌}
use bestiario.Prelude.Int.{pos}
use bestiario.Prelude.Result.{ok, map_ok}
use bestiario.Prelude.Text.{
  is_whitespace, is_empty, trim_start, trim_end, trim, is_blank, parse_digits, parse_i64,
}
use bestiario.Prelude.Float.{is_finite, is_nan, order_key, lt_f64}
use bestiario.Network.{mainnet, from_wire}
use bestiario.Ingest.Parse.Tags.{
  named_values, repeated_tag_values, tag_values, non_blank, required, optional, non_negative,
  non_negative_f64, expect_kind, number, finite, uuid, expect_discriminator, timestamp,
  published_at, optional_network,
}
use bestiario.Ingest.Parse.Order.{
  OrderVersion, range, parse_direction, parse_status, fiat_amount, fiat_of, parse_fiat_amount,
  parse_payment_methods, parse_order,
}
use bestiario.Ingest.Parse.Order.Valid.{IsValidOrder, parse_order-IsValidOrder}
use bestiario.Ingest.Parse.DevFee.{DevFee}
use bestiario.Ingest.Pipeline.{ingest}
use bestiario.Db.DevFees.{insert}
use bestiario.Db.DevFees.Flags.{IsFlagged, no_fees-IsFlagged, insert-IsFlagged}
use bestiario.Db.State.{Db, empty}
use bestiario.Db.Projection.{IsCurrent}
use bestiario.Db.Orders.Projection.{orders_projection}
use bestiario.Db.Disputes.Projection.{disputes_projection}
use bestiario.Rebuild.{rebuild}
use bestiario.Rebuild.Current.{rebuild-IsCurrent}
use bestiario.Rebuild.Same.{IsFilled, start, more, rebuild_from_raw_same}
use bestiario.Tests.Fixtures.{
  sdk, policy, relay, one_f64, success_event, success_version, pending_version, initiated_version,
  settled_version, IsKeyed-pair,
}

abbrev read_version : OrderVersion
read_version = record success_version {
  fiat = range one_f64 one_f64;
  payment_methods = "cash, in person" ∷ "bank" ∷ [];
}

success_event_parses : parse_order sdk success_event ≡ ok read_version
unfolding parse_order named_values repeated_tag_values tag_values non_blank required optional
    non_negative non_negative_f64 expect_kind number finite uuid expect_discriminator timestamp
    published_at optional_network parse_direction parse_status fiat_amount fiat_of parse_fiat_amount
    parse_payment_methods map_ok is_whitespace is_empty trim_start trim_end trim is_blank
    parse_digits parse_i64 is_finite is_nan order_key lt_f64 from_wire
success_event_parses = refl

parse_order-IsValidOrder_example : IsValidOrder success_event read_version
parse_order-IsValidOrder_example =
    parse_order-IsValidOrder sdk success_event read_version success_event_parses

abbrev first_fee : DevFee
first_fee = record {
  event_id = 21;
  pubkey = "ab";
  order_id = "order-1";
  created_at = pos 1700000100;
  amount_sats = pos 23;
  payment_hash = "hash";
  destination = none;
  network = some mainnet;
}

-- The same order paid again, at an earlier second than the fee that is stored.
abbrev second_fee : DevFee
second_fee = record first_fee { event_id = 22; created_at = pos 1700000050 }

insert-IsFlagged_example : IsFlagged (insert second_fee (insert first_fee []))
insert-IsFlagged_example =
    insert-IsFlagged second_fee (insert first_fee [])
      (insert-IsFlagged first_fee [] no_fees-IsFlagged)

-- Versions without a projection.
abbrev unprojected : Db
unprojected = record empty {
  order_versions = pending_version ∷ success_version ∷ [];
  dispute_versions = initiated_version ∷ settled_version ∷ [];
}

rebuild-IsCurrent_example :
    let db' = (rebuild sdk false unprojected).0 in
    IsCurrent orders_projection db'.order_versions db'.orders
    × IsCurrent disputes_projection db'.dispute_versions db'.disputes
rebuild-IsCurrent_example =
    rebuild-IsCurrent sdk false unprojected
      (IsKeyed-pair (λ v. v.event_id) pending_version success_version (λ e. cc))
      (IsKeyed-pair (λ v. v.event_id) initiated_version settled_version (λ e. cc))

abbrev one_order : Db
one_order = (ingest sdk policy success_event relay (pos 1700000010) empty).0

one_order-IsFilled : IsFilled sdk one_order
one_order-IsFilled = more policy success_event relay (pos 1700000010) empty refl start

rebuild_from_raw_same_example :
    ((rebuild sdk true one_order).0.orders "order-1" ≡ one_order.orders "order-1")
    × ((rebuild sdk true one_order).0.disputes "order-1" ≡ one_order.disputes "order-1")
rebuild_from_raw_same_example = rebuild_from_raw_same sdk one_order "order-1" one_order-IsFilled
