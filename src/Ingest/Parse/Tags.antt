-- ===== src/Ingest/Parse/Tags.antt =====
-- Reading the tags of an event (src/ingest/parse/mod.rs). A tag name and the text of what was
-- expected are `&'static str`, kept as texts. `required` and `optional` are the two ways to read one.

use bestiario.Prelude.{
  ℕ, String, Bool, false, Option, none, some, List, [], ◌∷◌, ◌==◌, str_eq, if◌then◌else◌,
}
use bestiario.Prelude.Int.{ℤ, pos, ltb_ℤ}
use bestiario.Prelude.Float.{F64, is_finite, lt_f64, zero_f64}
use bestiario.Prelude.Lists.{length}
use bestiario.Prelude.Result.{Result, ok, err, ok_or, ◌>>=◌}
use bestiario.Prelude.Text.{is_blank, parse_i64, show_ℤ}
use bestiario.Ingest.Event.{Event, Sdk}
use bestiario.Network.{Network, from_wire}

-- Why the content of a rate snapshot was refused: the `reason` of `InvalidContent`.
pub data Fault : Type 0 where
  not_json : String → Fault
  not_an_object : String → Fault
  repeated_key : String → Fault
  btc_not_a_table : Fault
  no_btc : Fault
  not_positive : String → String → Fault
  not_a_code : String → Fault
  no_currency : Fault

pub data ParseError : Type 0 where
  wrong_kind : ℕ → ℕ → ParseError
  missing_tag : String → ParseError
  empty_tag : String → ParseError
  unknown_value : String → String → String → ParseError
  not_a_number : String → String → String → ParseError
  wrong_value_count : String → ℕ → String → ParseError
  repeated_tag : String → ℕ → ParseError
  blank_value : String → String → ParseError
  out_of_range : String → String → String → ParseError
  inverted_range : String → F64 → F64 → ParseError
  invalid_content : Fault → ParseError

abbrev pub Parse : Type 0 → Type 0
Parse = Result ParseError

-- `values.first() == Some(name)`
abbrev is_named : String → List String → Bool
is_named name [] = false
is_named name (first ∷ rest) = str_eq first name

abbrev tail : List String → List String
tail [] = []
tail (x ∷ xs) = xs

-- The values behind the name, for every tag of that name.
unfoldable pub named_values : String → List (List String) → List (List String)
named_values name [] = []
named_values name (tag ∷ tags) =
    let rest = named_values name tags in if is_named name tag then tail tag ∷ rest else rest

unfoldable pub repeated_tag_values : Event → String → List (List String)
unfolding named_values
repeated_tag_values event name = named_values name event.tags

abbrev only : String → List (List String) → Parse (Option (List String))
only name [] = ok none
only name (values ∷ []) = ok (some values)
only name (values ∷ more ∷ rest) = err (repeated_tag name (length (values ∷ more ∷ rest)))

unfoldable pub tag_values : Event → String → Parse (Option (List String))
unfolding repeated_tag_values
tag_values event name = only name (repeated_tag_values event name)

unfoldable pub non_blank : String → String → String → Parse String
non_blank tag value expected = if is_blank value then err (blank_value tag expected) else ok value

abbrev pub exactly_one : String → List String → Parse String
exactly_one tag [] = err (empty_tag tag)
exactly_one tag (value ∷ []) = ok value
exactly_one tag (value ∷ more ∷ rest) =
    err (wrong_value_count tag (length (value ∷ more ∷ rest)) "exactly one value")

unfoldable pub required : Event → String → Parse String
unfolding tag_values non_blank
required event tag = do
  found ← tag_values event tag
  values ← ok_or found (missing_tag tag)
  value ← exactly_one tag values
  non_blank tag value "a value"

abbrev pub at_most_one : String → Option (List String) → Parse (Option String)
at_most_one tag none = ok none
at_most_one tag (some []) = ok none
at_most_one tag (some (value ∷ [])) = ok (if is_blank value then none else some value)
at_most_one tag (some (value ∷ more ∷ rest)) =
    err (wrong_value_count tag (length (value ∷ more ∷ rest)) "exactly one value")

unfoldable pub optional : Event → String → Parse (Option String)
unfolding tag_values
optional event tag = do found ← tag_values event tag; at_most_one tag found

-- `non_negative::<i64>` and `non_negative::<f64>`: the generic function at its two types.
unfoldable pub non_negative : String → ℤ → String → Parse ℤ
non_negative tag value expected =
    if ltb_ℤ value (pos 0) then err (out_of_range tag (show_ℤ value) expected) else ok value

unfoldable pub non_negative_f64 : Sdk → String → F64 → String → Parse F64
non_negative_f64 sdk tag value expected =
    if lt_f64 value zero_f64 then err (out_of_range tag (sdk.show_f64 value) expected) else ok value

unfoldable pub expect_kind : Event → ℕ → Parse (Unit {0})
expect_kind event expected =
    if event.kind == expected then ok tt else err (wrong_kind expected event.kind)

-- `number::<T>`, given what `T::from_str` made of the value.
unfoldable pub number : {T : Type 0} → String → String → String → Option T → Parse T
number tag value expected none = err (not_a_number tag value expected)
number tag value expected (some parsed) = ok parsed

unfoldable pub finite : Sdk → String → String → String → Parse F64
unfolding number
finite sdk tag value expected = do
  parsed ← number tag value expected (sdk.parse_f64 value)
  if is_finite parsed then ok parsed else err (not_a_number tag value expected)

unfoldable pub uuid : Sdk → String → String → Parse String
uuid sdk tag value = ok_or (sdk.parse_uuid value) (unknown_value tag value "a UUID")

unfoldable pub expect_discriminator : Event → String → Parse (Unit {0})
unfolding required
expect_discriminator event expected = do
  found ← required event "z"
  if str_eq found expected then ok tt else err (unknown_value "z" found expected)

-- `number::<i64>` behind `non_negative`, as the timestamps and amounts are read.
unfoldable pub timestamp : String → String → String → Parse ℤ
unfolding number non_negative
timestamp tag value expected = do
  parsed ← number tag value expected (parse_i64 value)
  non_negative tag parsed expected

-- The loop over the two tag names, unrolled.
abbrev pub first_timestamp : String → Option String → Parse (Option ℤ) → Parse (Option ℤ)
first_timestamp tag none next = next
first_timestamp tag (some value) next = do t ← timestamp tag value "a unix timestamp"; ok (some t)

unfoldable pub published_at : Event → Parse (Option ℤ)
unfolding optional timestamp
published_at event = do
  found ← optional event "published_at"
  first_timestamp "published_at" found
      (do older ← optional event "created_at"; first_timestamp "created_at" older (ok none))

abbrev pub network_of : Option String → Parse (Option Network)
network_of none = ok none
network_of (some value) = do
  network ←
      ok_or (from_wire value)
        (unknown_value "network" value "`mainnet`, `testnet`, `signet` or `regtest`")
  ok (some network)

unfoldable pub optional_network : Event → Parse (Option Network)
unfolding optional
optional_network event = do found ← optional event "network"; network_of found
