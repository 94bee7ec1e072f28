-- ===== src/Tests/Publishing.antt =====
-- Publishing, at a concrete snapshot. The times are written as plain numbers.
use bestiario.Prelude.{◌≡◌, refl, true, false, some, none, [], ◌∷◌, String, inl}
use bestiario.Prelude.Int.{pos}
use bestiario.Prelude.Lists.{In}
use bestiario.Prelude.Map.{Map, get}
use bestiario.Prelude.Text.{show_ℤ, show_ℕ, show_digits, digit, parse_i64, parse_digits}
use bestiario.Publish.Restatement.{
  Clock, Run, Document, Previous, restated, no, backfill, rebuild, recorded, against,
}
use bestiario.Publish.Restatement.Kept.{Reads, successor, recorded-against, against_again}
use bestiario.Publish.Restatement.Snapshot.{restated_snapshot, snapshot_again}

abbrev clock : Clock
clock = record { rfc3339 = show_ℤ; parse_rfc3339 = parse_i64 }

abbrev monday : Run
monday = record { snapshot_id = "one"; generated_at = pos 7 }

abbrev tuesday : Run
tuesday = record { snapshot_id = "two"; generated_at = pos 8 }

monday-Reads : Reads clock monday.generated_at
unfolding show_ℤ show_ℕ show_digits digit parse_i64 parse_digits
monday-Reads = refl

tuesday-Reads : Reads clock tuesday.generated_at
unfolding show_ℤ show_ℕ show_digits digit parse_i64 parse_digits
tuesday-Reads = refl

abbrev orders : Document String
orders = record {
  address = record { text = "orders:24h"; is_series = false };
  envelope = record {
    schema_version = 1;
    snapshot_id = "";
    generated_at = "";
    revision = 1;
    restated_at = none;
    restated_because = none;
    payload = "{}";
  };
  hash = "new";
  updated_at = pos 0;
  period = none;
}

abbrev known : Previous
known = restated "old" 2 (pos 5) (record { at = pos 7; because = "rebuild" })

recorded-against_example :
    recorded clock (against clock tuesday orders (some known) backfill).0
    ≡ successor clock tuesday orders backfill known
recorded-against_example =
    recorded-against clock tuesday orders known backfill (refl, monday-Reads) tuesday-Reads

against_again_example :
    let state = recorded clock (against clock monday orders (some known) backfill).0 in
    ((against clock tuesday orders (some state) rebuild).1 ≡ true)
    × (recorded clock (against clock tuesday orders (some state) rebuild).0 ≡ state)
against_again_example =
    against_again clock monday tuesday orders (some known) backfill rebuild (refl, monday-Reads)
      monday-Reads tuesday-Reads

abbrev before : Map Previous
before = []

snapshot_again_example :
    let first_run = restated_snapshot clock monday before backfill no (orders ∷ []) in
    let second_run = restated_snapshot clock tuesday first_run.state rebuild no (orders ∷ []) in
    In "orders:24h" second_run.not_sent
    × (get "orders:24h" second_run.state ≡ get "orders:24h" first_run.state)
unfolding get
snapshot_again_example =
    snapshot_again clock monday tuesday before backfill rebuild no (orders ∷ []) orders (inl refl)
      ((λ i. i), tt) tt monday-Reads tuesday-Reads
