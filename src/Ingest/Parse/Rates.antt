-- ===== src/Ingest/Parse/Rates.antt =====
-- Kind 30078: a snapshot of exchange rates (src/ingest/parse/rates.rs).
use bestiario.Prelude.{
  ℕ, String, Bool, true, ◌&&◌, Option, none, some, List, [], ◌∷◌, ◌==◌, leb, ltb, is_some, str_eq,
  if◌then◌else◌,
}
use bestiario.Prelude.Int.{ℤ, pos, negsuc, ltb_ℤ, ◌-ℤ◌}
use bestiario.Prelude.Float.{F64, is_finite, lt_f64, zero_f64}
use bestiario.Prelude.Map.{Map, get, insert, contains}
use bestiario.Prelude.Result.{ok, err, ok_or, ◌>>=◌, ◌>>◌}
use bestiario.Prelude.Text.{show_ℤ, show_ℕ}
use bestiario.Ingest.Event.{Event, Sdk, Json, object, other, Document, entries, syntax, shape}
use bestiario.Ingest.Parse.Tags.{
  not_json, not_an_object, repeated_key, btc_not_a_table, no_btc, not_positive, not_a_code,
  no_currency, Parse, unknown_value, out_of_range, invalid_content, required, optional, expect_kind,
  timestamp,
}
use Prim.Native.Char.{code}
use Prim.Native.String

abbrev pub kind_rates : ℕ
kind_rates = 30078

abbrev pub max_clock_divergence_secs : ℤ
max_clock_divergence_secs = pos 600

abbrev pub identifier : String
identifier = "mostro-rates"

pub record RateSnapshot : Type 0 where
  pub event_id : ℕ
  pub pubkey : String
  pub published_at : ℤ
  pub source : Option String
  pub rates : Map F64

-- `char::is_ascii_uppercase`, over the whole text.
all_uppercase : String → Bool
all_uppercase String.[] = true
all_uppercase (String.◌∷◌ c s) = leb 65 (code c) && leb (code c) 90 && all_uppercase s

unfoldable pub canonical_code : String → Parse String
unfolding all_uppercase
canonical_code text =
    if String.len text == 3 && all_uppercase text
    then ok text
    else err (invalid_content (not_a_code text))

-- `i64::abs`
abbrev pub abs : ℤ → ℤ
abs (pos n) = pos n
abs (negsuc n) = pos (ℕ.suc n)

unfoldable pub near : ℤ → ℤ → Parse ℤ
near created_at published_at =
    if ltb_ℤ max_clock_divergence_secs (abs (published_at -ℤ created_at))
    then err (
        out_of_range "published_at" (show_ℤ published_at)
          "a time within ten minutes of the event's own clock")
    else ok published_at

unfoldable pub signed_at : Event → Parse ℤ
signed_at event =
    if ltb event.created_at 9223372036854775808
    then ok (pos event.created_at)
    else err (
        out_of_range "created_at" (show_ℕ event.created_at)
          "a unix timestamp that fits a signed 64-bit second count")

-- `UniqueTable`: a table that names a code twice is refused.
unfoldable pub unique_table : Map String → List (String × String) → Parse (Map String)
unique_table table [] = ok table
unique_table table ((name, price) ∷ rest) =
    let more = unique_table (insert name price table) rest in
    if is_some (get name table) then err (invalid_content (repeated_key name)) else more

table_of : Json → Parse (Map String)
unfolding unique_table
table_of (object prices) = unique_table [] prices
table_of other = err (invalid_content btc_not_a_table)

-- `ContentVisitor`: `seen` the keys so far, `btc` the table if there was one.
unfoldable pub visit :
    List String → Option (Map String) → List (String × Json) → Parse (Option (Map String))
unfolding table_of
visit seen btc [] = ok btc
visit seen btc ((key, value) ∷ rest) =
    let repeated = contains key seen in
    let skipped = visit (key ∷ seen) btc rest in
    if repeated
    then err (invalid_content (repeated_key key))
    else if str_eq key "BTC"
    then (do table ← table_of value; visit (key ∷ seen) (some table) rest)
    else skipped

unfoldable pub content_of : Document → Parse (Option (Map String))
unfolding visit contains get insert
content_of (entries fields) = visit [] none fields
content_of (syntax error) = err (invalid_content (not_json error))
content_of (shape error) = err (invalid_content (not_an_object error))

-- `price.as_f64().filter(…)`: finite and above zero.
abbrev priced : Option F64 → Option F64
priced none = none
priced (some price) = if is_finite price && lt_f64 zero_f64 price then some price else none

-- The loop over the table; `rates` is the map that it fills.
unfoldable pub rates_of : Sdk → Map F64 → Map String → Parse (Map F64)
unfolding canonical_code
rates_of sdk rates [] = ok rates
rates_of sdk rates ((name, text) ∷ rest) = do
  price ← ok_or (priced (sdk.as_f64 text)) (invalid_content (not_positive name text))
  currency ← canonical_code name
  rates_of sdk (insert currency price rates) rest

non_empty : Map F64 → Parse (Map F64)
non_empty [] = err (invalid_content no_currency)
non_empty (entry ∷ rest) = ok (entry ∷ rest)

unfoldable pub parse_content : Sdk → String → Parse (Map F64)
unfolding content_of rates_of non_empty
parse_content sdk content = do
  btc ← content_of (sdk.read_document content)
  table ← ok_or btc (invalid_content no_btc)
  rates ← rates_of sdk [] table
  non_empty rates

abbrev pub claimed_at : ℤ → Option String → Parse ℤ
claimed_at created_at none = ok created_at
claimed_at created_at (some value) = do
  claimed ← timestamp "published_at" value "a unix timestamp"
  near created_at claimed

unfoldable pub expect_identifier : String → Parse (Unit {0})
expect_identifier found =
    if str_eq found identifier then ok tt else err (unknown_value "d" found "`mostro-rates`")

-- `rates::parse`
unfoldable pub parse_rates : Sdk → Event → Parse RateSnapshot
parse_rates sdk event = do
  expect_kind event kind_rates
  found ← required event "d"
  expect_identifier found
  created_at ← signed_at event
  claim ← optional event "published_at"
  published_at ← claimed_at created_at claim
  source ← optional event "source"
  rates ← parse_content sdk event.content
  ok (record {
    event_id = event.id;
    pubkey = event.pubkey;
    published_at = published_at;
    source = source;
    rates = rates;
  })
