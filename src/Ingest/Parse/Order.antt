-- ===== src/Ingest/Parse/Order.antt =====
-- Kind 38383: one published version of an order (src/ingest/parse/order.rs).
pub mod Valid
use bestiario.Prelude.{ℕ, String, Option, List, [], ◌∷◌, str_eq, if◌then◌else◌}
use bestiario.Prelude.Int.{ℤ, as_i64}
use bestiario.Prelude.Float.{F64, lt_f64}
use bestiario.Prelude.Lists.{length}
use bestiario.Prelude.Result.{ok, err, ok_or, map_ok, ◌>>=◌, ◌>>◌}
use bestiario.Ingest.Event.{Event, Sdk}
use bestiario.Ingest.Parse.Tags.{
  Parse, unknown_value, missing_tag, empty_tag, inverted_range, wrong_value_count, tag_values,
  required, non_blank, non_negative_f64, finite, timestamp, uuid, expect_kind, expect_discriminator,
  optional_network, published_at,
}
use bestiario.Network.{Network}

abbrev pub kind_order : ℕ
kind_order = 38383

abbrev pub discriminator : String
discriminator = "order"

pub data Direction : Type 0 where
  buy sell : Direction

pub data Status : Type 0 where
  pending in_progress success canceled : Status

pub data FiatAmount : Type 0 where
  fixed : F64 → FiatAmount
  range : F64 → F64 → FiatAmount

pub record OrderVersion : Type 0 where
  pub event_id : ℕ
  pub order_id : String
  pub pubkey : String
  pub created_at : ℤ
  pub direction : Direction
  pub status : Status
  pub fiat_code : String
  pub amount_sats : ℤ
  pub fiat : FiatAmount
  pub payment_methods : List String
  pub premium : F64
  pub network : Option Network
  pub expires_at : ℤ
  pub order_created_at : Option ℤ

unfoldable pub direction_str : Direction → String
direction_str buy = "buy"
direction_str sell = "sell"

unfoldable pub parse_direction : String → Parse Direction
parse_direction value =
    if str_eq value "buy"
    then ok buy
    else if str_eq value "sell"
    then ok sell
    else err (unknown_value "k" value "`buy` or `sell`")

unfoldable pub status_str : Status → String
status_str pending = "pending"
status_str in_progress = "in-progress"
status_str success = "success"
status_str canceled = "canceled"

unfoldable pub parse_status : String → Parse Status
parse_status value =
    if str_eq value "pending"
    then ok pending
    else if str_eq value "in-progress"
    then ok in_progress
    else if str_eq value "success"
    then ok success
    else if str_eq value "canceled"
    then ok canceled
    else err (unknown_value "s" value "`pending`, `in-progress`, `success` or `canceled`")

module _ (sdk : Sdk) where
  -- A `fa` value: finite, and not below zero.
  unfoldable pub fiat_amount : String → String → Parse F64
  fiat_amount value expected = do
    amount ← finite sdk "fa" value expected
    non_negative_f64 sdk "fa" amount expected

  unfoldable pub fiat_of : List String → Parse FiatAmount
  fiat_of [] = err (empty_tag "fa")
  fiat_of (amount ∷ []) = do a ← fiat_amount amount "a fiat amount"; ok (fixed a)
  fiat_of (low ∷ high ∷ []) = do
    min ← fiat_amount low "the minimum of a range"
    max ← fiat_amount high "the maximum of a range"
    if lt_f64 max min then err (inverted_range "fa" min max) else ok (range min max)
  fiat_of (one ∷ two ∷ three ∷ rest) = err (
      wrong_value_count "fa" (length (one ∷ two ∷ three ∷ rest))
        "one amount, or a `[min, max]` pair")

  unfoldable pub parse_fiat_amount : Event → Parse FiatAmount
  parse_fiat_amount event = do
    found ← tag_values event "fa"
    values ← ok_or found (missing_tag "fa")
    fiat_of values

methods_of : List String → Parse (List String)
methods_of [] = err (empty_tag "pm")
methods_of (first ∷ rest) =
    map_ok (λ method. non_blank "pm" method "a payment method") (first ∷ rest)

unfoldable pub parse_payment_methods : Event → Parse (List String)
unfolding methods_of
parse_payment_methods event = do
  found ← tag_values event "pm"
  values ← ok_or found (missing_tag "pm")
  methods_of values

-- `order::parse`: the fields in the order in which the struct literal reads them.
unfoldable pub parse_order : Sdk → Event → Parse OrderVersion
parse_order sdk event = do
  expect_kind event kind_order
  expect_discriminator event discriminator
  d ← required event "d"
  order_id ← uuid sdk "d" d
  k ← required event "k"
  direction ← parse_direction k
  s ← required event "s"
  status ← parse_status s
  fiat_code ← required event "f"
  amt ← required event "amt"
  amount_sats ← timestamp "amt" amt "an amount in sats"
  fiat ← parse_fiat_amount sdk event
  payment_methods ← parse_payment_methods event
  p ← required event "premium"
  premium ← finite sdk "premium" p "a percentage"
  network ← optional_network event
  e ← required event "expires_at"
  expires_at ← timestamp "expires_at" e "a unix timestamp"
  order_created_at ← published_at event
  ok (record {
    event_id = event.id;
    order_id = order_id;
    pubkey = event.pubkey;
    created_at = as_i64 event.created_at;
    direction = direction;
    status = status;
    fiat_code = fiat_code;
    amount_sats = amount_sats;
    fiat = fiat;
    payment_methods = payment_methods;
    premium = premium;
    network = network;
    expires_at = expires_at;
    order_created_at = order_created_at;
  })
