-- ===== src/Stats/Bucket.antt =====
-- What the archive covers, and a report by buckets (crates/stats/src/bucket.rs).
use bestiario.Prelude.{
  ℕ, Bool, true, false, ◌&&◌, Option, none, some, String, List, [], ◌∷◌, ◌++◌, map, and_then,
  map_or, if◌then◌else◌,
}
use bestiario.Prelude.Int.{ℤ, ltb_ℤ, leb_ℤ}
use bestiario.Stats.Metric.{Metric, missing}
use bestiario.Stats.Window.{Window, Period, Chrono, Buckets, walk, preceding}

pub record Coverage : Type 0 where
  pub earliest : Option ℤ
  pub latest : Option ℤ

unfoldable pub covers : Coverage → Window → Bool
covers coverage window =
    map_or coverage.earliest false (λ earliest. ltb_ℤ earliest window.until)
    && map_or coverage.latest true (λ latest. leb_ℤ window.from latest)

-- `filter` on the window before a bucket.
abbrev before : Coverage → Option Window → Option Window
before coverage none = none
before coverage (some window) = if covers coverage window then some window else none

-- The body of the `flat_map`: a bucket that is not covered has the metrics of an empty window, without
-- their values.
unfoldable pub bucket_metrics :
    Chrono
    → Period
    → Coverage
    → (String → Window → Option Window → List Metric)
    → String × Window
    → List Metric
unfolding covers missing
bucket_metrics chrono period coverage block (key, bucket) =
    if covers coverage bucket
    then block key bucket (before coverage (preceding chrono bucket period))
    else map missing (block key (record { from = bucket.from; until = bucket.from }) none)

unfoldable pub all_metrics : (String × Window → List Metric) → Buckets → List Metric
all_metrics metrics [] = []
all_metrics metrics (bucket ∷ buckets) = metrics bucket ++ all_metrics metrics buckets

-- `walk`, over the buckets of a window that no limit cuts short.
unfoldable pub walk_metrics :
    Chrono
    → Window
    → Period
    → ℕ
    → Coverage
    → (String → Window → Option Window → List Metric)
    → Option (List Metric)
unfolding bucket_metrics all_metrics
walk_metrics chrono window period fuel coverage block =
    and_then (walk chrono window period fuel 18446744073709551615) (λ result.
      and_then result
        (λ buckets. some (all_metrics (bucket_metrics chrono period coverage block) buckets)))
