-- ===== src/Commands/Filters.antt =====
-- What relays are asked for (src/nostr/filters.rs). A public key of the nostr library is its text.
pub mod Window
pub mod Authors
use bestiario.Prelude.{
  ℕ, Bool, true, false, Option, none, some, String, List, [], ◌∷◌, if◌then◌else◌, ◌==◌,
}
use bestiario.Prelude.Int.{ℤ, pos, pos_part, ◌-ℤ◌, ltb_ℤ, i64_max, wrap_i64}
use bestiario.Prelude.Lists.{collect}
use bestiario.Ingest.Parse.Order.{kind_order}
use bestiario.Ingest.Parse.DevFee.{kind_dev_fee}
use bestiario.Ingest.Parse.Dispute.{kind_dispute}
use bestiario.Ingest.Parse.Info.{kind_info}
use bestiario.Ingest.Parse.Rates.{kind_rates, identifier}
use bestiario.Ingest.Parse.RelayList.{kind_relay_list}
use bestiario.Ingest.Policy.{untagged}
use bestiario.Commands.Range.{Range}

-- The fields of a `Filter` that the program sets; a field that is not set does not narrow.
pub record Filter : Type 0 where
  pub kind : ℕ
  pub named : Option String
  pub authors : Option (List String)
  pub since : Option ℕ
  pub until : Option ℕ
  pub limit : Option ℕ

abbrev pub indexed_kinds : List ℕ
indexed_kinds =
    kind_order ∷ kind_dev_fee ∷ kind_dispute ∷ kind_info ∷ kind_rates ∷ kind_relay_list ∷ []

abbrev pub single_copy_kinds : List ℕ
single_copy_kinds = kind_info ∷ kind_rates ∷ kind_relay_list ∷ []

abbrev pub is_nil : List String → Bool
is_nil [] = true
is_nil (x ∷ xs) = false

-- `(range.from() > 0).then(…)`
unfoldable pub since_of : Range → Option ℕ
since_of range = if ltb_ℤ (pos 0) range.from then some (pos_part range.from) else none

-- `(range.until() - 1).max(0) as u64`, where there is a bound.
unfoldable pub until_of : Range → Option ℕ
until_of range =
    if ltb_ℤ range.until i64_max then some (pos_part (wrap_i64 (range.until -ℤ pos 1))) else none

unfoldable pub window : Range → Option ℕ × Option ℕ
unfolding since_of until_of
window range = (since_of range, until_of range)

abbrev pub since_in : Option Range → Option ℕ
since_in none = none
since_in (some range) = (window range).0

abbrev pub until_in : Option Range → Option ℕ
until_in none = none
until_in (some range) = (window range).1

-- The builder calls, once the authors are known.
unfoldable pub narrowed : ℕ → List String → Option Range → Option ℕ → Filter
unfolding window
narrowed kind authors range limit = record {
  kind = kind;
  named = if kind == kind_rates then some identifier else none;
  authors = if is_nil authors then none else some authors;
  since = since_in range;
  until = until_in range;
  limit = limit;
}

unfoldable pub for_kind : ℕ → List String → List String → Option Range → Option ℕ → Option Filter
unfolding narrowed
for_kind kind authors vouched range limit =
    if untagged kind
    then (if is_nil vouched then none else some (narrowed kind vouched range limit))
    else some (narrowed kind authors range limit)

unfoldable pub per_kind : List String → List String → Option Range → Option ℕ → List Filter
unfolding collect for_kind
per_kind authors vouched range limit =
    collect (λ kind. for_kind kind authors vouched range limit) indexed_kinds
