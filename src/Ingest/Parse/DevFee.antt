-- ===== src/Ingest/Parse/DevFee.antt =====
-- Kind 8383: a payment to the development fund (src/ingest/parse/dev_fee.rs).
use bestiario.Prelude.{ℕ, String, Option}
use bestiario.Prelude.Int.{ℤ, as_i64}
use bestiario.Prelude.Result.{ok, ◌>>=◌, ◌>>◌}
use bestiario.Ingest.Event.{Event, Sdk}
use bestiario.Ingest.Parse.Tags.{
  Parse, required, optional, expect_kind, expect_discriminator, uuid, timestamp, optional_network,
}
use bestiario.Network.{Network}

abbrev pub kind_dev_fee : ℕ
kind_dev_fee = 8383

abbrev pub discriminator : String
discriminator = "dev-fee-payment"

pub record DevFee : Type 0 where
  pub event_id : ℕ
  pub pubkey : String
  pub order_id : String
  pub created_at : ℤ
  pub amount_sats : ℤ
  pub payment_hash : String
  pub destination : Option String
  pub network : Option Network

-- `dev_fee::parse`
unfoldable pub parse_dev_fee : Sdk → Event → Parse DevFee
parse_dev_fee sdk event = do
  expect_kind event kind_dev_fee
  expect_discriminator event discriminator
  o ← required event "order-id"
  order_id ← uuid sdk "order-id" o
  a ← required event "amount"
  amount_sats ← timestamp "amount" a "an amount in sats"
  payment_hash ← required event "hash"
  destination ← optional event "destination"
  network ← optional_network event
  ok (record {
    event_id = event.id;
    pubkey = event.pubkey;
    order_id = order_id;
    created_at = as_i64 event.created_at;
    amount_sats = amount_sats;
    payment_hash = payment_hash;
    destination = destination;
    network = network;
  })
