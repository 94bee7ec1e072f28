-- ===== src/Ingest/Parse/RelayList.antt =====
-- Kind 10002: the relays that an instance says it writes to (src/ingest/parse/relay_list.rs).
use bestiario.Prelude.{
  ℕ, String, Bool, true, false, Option, none, some, List, [], ◌∷◌, str_eq, if◌then◌else◌,
}
use bestiario.Prelude.Int.{ℤ, as_i64}
use bestiario.Prelude.Map.{contains}
use bestiario.Prelude.Result.{ok, ◌>>◌}
use bestiario.Ingest.Event.{Event, Sdk}
use bestiario.Ingest.Parse.Tags.{Parse, expect_kind, repeated_tag_values}

abbrev pub kind_relay_list : ℕ
kind_relay_list = 10002

pub record RelayList : Type 0 where
  pub event_id : ℕ
  pub pubkey : String
  pub created_at : ℤ
  pub relays : List String

-- No marker, or `write`.
unfoldable pub writes_to : List String → Bool
writes_to [] = true
writes_to (marker ∷ rest) = str_eq marker "write"

-- What one `r` tag adds: a relay written to, by an address that can be dialled.
unfoldable pub dialled : Sdk → List String → Option String
unfolding writes_to
dialled sdk [] = none
dialled sdk (url ∷ markers) = if writes_to markers then sdk.parse_relay_url url else none

-- The loop, with `seen` the relays taken so far.
unfoldable pub relays_from : Sdk → List String → List (List String) → List String
unfolding dialled contains
relays_from sdk seen [] = []
relays_from sdk seen (values ∷ rest) = elim (dialled sdk values) [
  | none ↦ relays_from sdk seen rest
  | some url ↦ elim (contains url seen) [
    | true ↦ relays_from sdk seen rest
    | false ↦ url ∷ relays_from sdk (url ∷ seen) rest
  ]
]

-- `relay_list::parse`
unfoldable pub parse_relay_list : Sdk → Event → Parse RelayList
parse_relay_list sdk event = do
  expect_kind event kind_relay_list
  ok (record {
    event_id = event.id;
    pubkey = event.pubkey;
    created_at = as_i64 event.created_at;
    relays = relays_from sdk [] (repeated_tag_values event "r");
  })
