-- ===== src/Backfill/Walk.antt =====
-- The walk of a backfill: one relay and one kind, from the top of a range down to its floor, and the
-- relays and kinds of a run (src/commands/backfill.rs).
pub mod Pages
mod Asked
mod Fuel
pub mod Terminates
pub mod Complete
use bestiario.Prelude.{
  ℕ, zero, suc, String, Bool, Option, none, some, List, [], ◌∷◌, ◌++◌, if◌then◌else◌, and_then,
  ◌==◌, ◌||◌, false,
}
use bestiario.Prelude.Int.{ℤ, pos_part, ◌-ℤ◌, ltb_ℤ}
use bestiario.Prelude.Map.{contains}
use bestiario.Prelude.Result.{Result, ok, err}
use bestiario.Ingest.Event.{Event, Sdk}
use bestiario.Ingest.Outcome.{Counts, zero_counts, add}
use bestiario.Ingest.Policy.{Policy}
use bestiario.Db.Instances.{platform_proven}
use bestiario.Db.State.{Db}
use bestiario.Commands.Range.{Range, RangeError, resolve}
use bestiario.Commands.Filters.{Filter, for_kind, indexed_kinds}
use bestiario.Backfill.{ingest_all, next_until}

-- The network and the nostr library: what a relay answers to a filter, where it answers, and the
-- reading of a public key.
pub record Client : Type 0 where
  pub fetch_window : String → Filter → Option (List Event)
  pub parse_key : String → Option String

-- `Backfill`, with what its walks are about.
pub record Backfill : Type 0 where
  pub client : Client
  pub sdk : Sdk
  pub policy : Policy
  pub authors : List String
  pub listed : List String
  pub window_limit : ℕ
  pub range : Range
  pub now : ℤ

-- The body of the loop over the proven pubkeys.
unfoldable pub push_key : Client → String → List String → List String
push_key client pubkey vouched = elim (client.parse_key pubkey) [
  | none ↦ vouched
  | some key ↦ if contains key vouched then vouched else vouched ++ (key ∷ [])
]

unfoldable pub push_keys : Client → List String → List String → List String
push_keys client [] vouched = vouched
push_keys client (pubkey ∷ pubkeys) vouched =
    push_keys client pubkeys (push_key client pubkey vouched)

unfoldable pub vouched : Backfill → Db → List String
unfolding push_keys
vouched backfill db =
    push_keys backfill.client
      (platform_proven db.order_versions db.dev_fees db.dispute_versions db.instance_info)
      backfill.listed

-- One relay and one kind, and whom to ask about.
pub record Request : Type 0 where
  pub relay : String
  pub kind : ℕ
  pub vouched : List String

abbrev pub asked : Backfill → Request → Result RangeError Range → Option Filter
asked backfill request (err met) = none
asked backfill request (ok window) =
    for_kind request.kind backfill.authors request.vouched (some window)
      (some backfill.window_limit)

abbrev pub filled : List Event → Option (List Event)
filled [] = none
filled (event ∷ events) = some (event ∷ events)

-- The page below a bound, or nothing where the loop ends: the floor is met, nobody is to be asked, the
-- relay fails, or it has no more history.
unfoldable pub page : Backfill → Request → ℤ → Option (List Event)
page backfill request until =
    if ltb_ℤ backfill.range.from until
    then and_then
        (asked backfill request (resolve (some backfill.range.from) (some until) backfill.now))
        (λ filter. and_then (backfill.client.fetch_window request.relay filter) filled)
    else none

-- The loop, on fuel: nothing where the fuel does not reach its end.
unfoldable pub walk_from : Backfill → Request → ℕ → ℤ → Db → Counts → Option (Db × Counts)
unfolding page
walk_from backfill request zero until db counts = none
walk_from backfill request (suc fuel) until db counts = elim (page backfill request until) [
  | none ↦ some (db, counts)
  | some events ↦
      walk_from backfill request fuel (next_until until events)
        (ingest_all backfill.sdk backfill.policy request.relay backfill.now events db).0
        (add counts
          (ingest_all backfill.sdk backfill.policy request.relay backfill.now events db).1)
]

-- A second for each turn, and one turn more.
unfoldable pub enough : Backfill → ℕ
enough backfill = suc (pos_part (backfill.range.until -ℤ backfill.range.from))

-- `fuel` is what each walk is given.
unfoldable pub walk : Backfill → ℕ → String → ℕ → Db → Option (Db × Counts)
unfolding walk_from vouched
walk backfill fuel relay kind db =
    walk_from backfill (record { relay = relay; kind = kind; vouched = vouched backfill db }) fuel
      backfill.range.until db zero_counts

-- The kinds on one relay, one after the other.
unfoldable pub walk_kinds : Backfill → ℕ → String → List ℕ → Db → Counts → Option (Db × Counts)
unfolding walk
walk_kinds backfill fuel relay [] db walked = some (db, walked)
walk_kinds backfill fuel relay (kind ∷ kinds) db walked =
    and_then (walk backfill fuel relay kind db)
      (λ (after, counts). walk_kinds backfill fuel relay kinds after (add walked counts))

unfoldable pub walk_relays :
    Backfill → ℕ → List String → List ℕ → Db → Counts → Option (Db × Counts)
unfolding walk_kinds
walk_relays backfill fuel [] kinds db counts = some (db, counts)
walk_relays backfill fuel (relay ∷ relays) kinds db counts =
    and_then (walk_kinds backfill fuel relay kinds db zero_counts)
      (λ (after, walked). walk_relays backfill fuel relays kinds after (add counts walked))

abbrev member : ℕ → List ℕ → Bool
member kind [] = false
member kind (k ∷ ks) = k == kind || member kind ks

-- The kinds to walk; the error names the one that is not indexed.
unfoldable pub requested_kinds : Option ℕ → Result ℕ (List ℕ)
requested_kinds none = ok indexed_kinds
requested_kinds (some kind) = if member kind indexed_kinds then ok (kind ∷ []) else err kind
