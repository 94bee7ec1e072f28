-- ===== src/Publish/Address/Parse.antt =====
-- Scopes and whole addresses (crates/stats/src/publish/address.rs).
use bestiario.Prelude.{
  ℕ, Bool, ◌&&◌, ◌||◌, Option, none, some, String, List, [], ◌∷◌, if◌then◌else◌, ◌==◌, leb, str_eq,
  and_then,
}
use bestiario.Prelude.Lists.{length}
use bestiario.Prelude.Map.{contains}
use bestiario.Prelude.Join.{◌+++◌}
use bestiario.Prelude.Result.{Result, ok, err, ◌>>=◌, ok_or}
use bestiario.Prelude.Text.{is_empty}
use Prim.Native.Char.{code}
use bestiario.Publish.Address.{
  Report, Window, Partition, char_count, is_digit, all_chars, parse_report, parse_window,
  parse_resolution, parse_bucket, parse_year, new_partition, report_str, window_str, resolution_str,
  bucket_text, year_text,
}

pub data Scope : Type 0 where
  of_instance : String → Scope
  of_network : String → Scope

abbrev pub networks : List String
networks = "mainnet" ∷ "testnet" ∷ "signet" ∷ "regtest" ∷ []

-- `is_ascii_digit`, or between `a` and `f`.
abbrev pub is_lower_hex : ℕ → Bool
is_lower_hex c = is_digit c || leb 97 c && leb c 102

unfoldable pub scope_instance : String → Option Scope
unfolding all_chars
scope_instance pubkey =
    if char_count pubkey == 64 && all_chars is_lower_hex pubkey
    then some (of_instance pubkey)
    else none

unfoldable pub scope_network : String → Option Scope
unfolding contains
scope_network network = if contains network networks then some (of_network network) else none

unfoldable pub parse_scope : String → String → Option Scope
unfolding scope_instance scope_network
parse_scope kind value =
    if str_eq kind "i"
    then scope_instance value
    else if str_eq kind "n"
    then scope_network value
    else none

abbrev pub scope_text : Scope → String
scope_text (of_instance pubkey) = ":i:" +++ pubkey
scope_text (of_network network) = ":n:" +++ network

pub data Address : Type 0 where
  index : Option ℕ → Address
  window_of : Report → Window → Option Scope → Address
  series : Report → Partition → Option Scope → Address

-- The input and what was found there; the resolution of a bucket, and the shape that was expected.
pub data ParseError : Type 0 where
  no_text : ParseError
  no_report no_window no_resolution no_year no_scope : String → String → ParseError
  no_bucket : String → String → String → ParseError
  no_shape : String → ℕ → String → ParseError

-- `str::split`, for one character: one segment at least.
unfoldable pub split_on : ℕ → String → List String
split_on c String.[] = String.[] ∷ []
split_on c (String.◌∷◌ d s) =
    let rest = split_on c s in
    if code d == c
    then String.[] ∷ rest
    else elim rest [ [] ↦ [] | segment ∷ segments ↦ String.◌∷◌ d segment ∷ segments ]

unfoldable pub parse_rest : String → List String → String → Result ParseError (Option Scope)
unfolding parse_scope split_on
parse_rest input [] expected = ok none
parse_rest input (kind ∷ []) expected = err (no_shape input (length (split_on 58 input)) expected)
parse_rest input (kind ∷ value ∷ []) expected =
    ok_or (parse_scope kind value) (no_scope input (kind +++ ":" +++ value)) >>= λ scope.
    ok (some scope)
parse_rest input (kind ∷ value ∷ more ∷ rest) expected =
    err (no_shape input (length (split_on 58 input)) expected)

unfoldable pub parse_series :
    String → String → String → String → List String → Result ParseError Address
unfolding parse_report parse_resolution parse_bucket new_partition parse_rest
parse_series input report_text resolution_text bucket rest = do
  report ← ok_or (parse_report report_text) (no_report input report_text)
  resolution ← ok_or (parse_resolution resolution_text) (no_resolution input resolution_text)
  partition ←
      ok_or (and_then (parse_bucket bucket) (new_partition resolution))
        (no_bucket input bucket (resolution_str resolution))
  scope ← parse_rest input rest "4 or 6"
  ok (series report partition scope)

unfoldable pub parse_window_address :
    String → String → String → List String → Result ParseError Address
unfolding parse_report parse_window parse_rest
parse_window_address input report_text window_text rest = do
  report ← ok_or (parse_report report_text) (no_report input report_text)
  window ← ok_or (parse_window window_text) (no_window input window_text)
  scope ← parse_rest input rest "2 or 4"
  ok (window_of report window scope)

unfoldable pub parse_index : String → String → Result ParseError Address
unfolding parse_year
parse_index input text =
    ok_or (parse_year text) (no_year input text) >>= λ year. ok (index (some year))

-- The arms of the match, by the number of segments.
unfoldable pub parse_segments : String → List String → Result ParseError Address
unfolding parse_index parse_window_address parse_series
parse_segments input [] = err (no_report input input)
parse_segments input (only ∷ []) =
    if str_eq only "index" then ok (index none) else err (no_report input input)
parse_segments input (first ∷ second ∷ []) =
    if str_eq first "index"
    then parse_index input second
    else parse_window_address input first second []
parse_segments input (first ∷ second ∷ third ∷ []) =
    parse_window_address input first second (third ∷ [])
parse_segments input (first ∷ second ∷ third ∷ fourth ∷ rest) =
    if str_eq first "series"
    then parse_series input second third fourth rest
    else parse_window_address input first second (third ∷ fourth ∷ rest)

unfoldable pub parse : String → Result ParseError Address
unfolding parse_segments split_on
parse text = if is_empty text then err no_text else parse_segments text (split_on 58 text)

-- `rendered`
abbrev pub rendered : Option Scope → String
rendered none = String.[]
rendered (some scope) = scope_text scope

unfoldable pub address_text : Address → String
unfolding bucket_text
address_text (index none) = "index"
address_text (index (some year)) = "index:" +++ year_text year
address_text (window_of report window scope) =
    report_str report +++ ":" +++ window_str window +++ rendered scope
address_text (series report partition scope) =
    "series:"
    +++ report_str report
    +++ ":"
    +++ resolution_str partition.resolution
    +++ ":"
    +++ bucket_text partition.bucket
    +++ rendered scope
