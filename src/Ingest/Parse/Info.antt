-- ===== src/Ingest/Parse/Info.antt =====
-- Kind 38385: what an instance says about itself (src/ingest/parse/info.rs).
use bestiario.Prelude.{ℕ, String, Bool, true, false, Option, none, some, str_eq, if◌then◌else◌}
use bestiario.Prelude.Int.{ℤ, as_i64}
use bestiario.Prelude.Float.{F64}
use bestiario.Prelude.Result.{ok, err, traverse, ◌>>=◌, ◌>>◌}
use bestiario.Prelude.Text.{parse_i64}
use bestiario.Ingest.Event.{Event, Sdk}
use bestiario.Ingest.Parse.Tags.{Parse, unknown_value, required, optional, expect_kind, number}

abbrev pub kind_info : ℕ
kind_info = 38385

pub record InstanceInfo : Type 0 where
  pub event_id : ℕ
  pub pubkey : String
  pub created_at : ℤ
  pub fee : Option F64
  pub max_order_amount : Option ℤ
  pub min_order_amount : Option ℤ
  pub fiat_currencies : Option String
  pub mostro_version : Option String
  pub protocol_version : Option String
  pub ln_networks : Option String
  pub bond_enabled : Option Bool

-- `optional_number::<T>`, given `T::from_str`.
unfoldable pub optional_number :
    {T : Type 0} → (String → Option T) → Event → String → String → Parse (Option T)
optional_number from_str event tag expected = do
  found ← optional event tag
  traverse found (λ value. number tag value expected (from_str value))

abbrev bool_of : String → Option String → Parse (Option Bool)
bool_of tag none = ok none
bool_of tag (some value) =
    if str_eq value "true"
    then ok (some true)
    else if str_eq value "false"
    then ok (some false)
    else err (unknown_value tag value "`true` or `false`")

unfoldable pub optional_bool : Event → String → Parse (Option Bool)
optional_bool event tag = do found ← optional event tag; bool_of tag found

-- An instance speaks for itself: its identifier is its own pubkey.
unfoldable pub own_identifier : Event → String → Parse (Unit {0})
own_identifier event identifier =
    if str_eq identifier event.pubkey
    then ok tt
    else err (unknown_value "d" identifier "the publishing instance's own pubkey")

-- `info::parse`
unfoldable pub parse_info : Sdk → Event → Parse InstanceInfo
parse_info sdk event = do
  expect_kind event kind_info
  identifier ← required event "d"
  own_identifier event identifier
  fee ← optional_number sdk.parse_f64 event "fee" "a fraction, e.g. `0.006`"
  max_order_amount ← optional_number parse_i64 event "max_order_amount" "an amount in sats"
  min_order_amount ← optional_number parse_i64 event "min_order_amount" "an amount in sats"
  fiat_currencies ← optional event "fiat_currencies_accepted"
  mostro_version ← optional event "mostro_version"
  protocol_version ← optional event "protocol_version"
  ln_networks ← optional event "lnd_networks"
  bond_enabled ← optional_bool event "bond_enabled"
  ok (record {
    event_id = event.id;
    pubkey = event.pubkey;
    created_at = as_i64 event.created_at;
    fee = fee;
    max_order_amount = max_order_amount;
    min_order_amount = min_order_amount;
    fiat_currencies = fiat_currencies;
    mostro_version = mostro_version;
    protocol_version = protocol_version;
    ln_networks = ln_networks;
    bond_enabled = bond_enabled;
  })
