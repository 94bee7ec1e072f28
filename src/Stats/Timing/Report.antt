-- ===== src/Stats/Timing/Report.antt =====
-- The metrics of timing (crates/stats/src/timing.rs).
use bestiario.Prelude.{ℕ, Option, none, some, String, List, [], ◌∷◌, ◌++◌}
use bestiario.Prelude.Int.{ℤ}
use bestiario.Prelude.Float.{F64, Floats}
use bestiario.Prelude.Join.{◌+++◌}
use bestiario.Prelude.Map.{Map}
use bestiario.Stats.Window.{Window}
use bestiario.Stats.Metric.{Metric}
use bestiario.Stats.Activity.{Order, direction_str, ratio}
use bestiario.Stats.Activity.Report.{count_metric, ratio_metric, push_groups}
use bestiario.Stats.Disputes.Report.{seconds_metric}
use bestiario.Stats.Timing.{Funnel, Timing, summarise}

unfoldable pub share : Floats → Funnel → ℕ → Option F64
unfolding ratio
share floats funnel count = ratio floats count funnel.created

unfoldable pub metrics : Floats → String → Timing → List Metric
unfolding count_metric ratio_metric seconds_metric share
metrics floats prefix timing =
    count_metric prefix "time_to_fill_samples" timing.time_to_fill_samples
    ∷ seconds_metric prefix "time_to_fill_p50" timing.time_to_fill_p50
    ∷ seconds_metric prefix "time_to_fill_p90" timing.time_to_fill_p90
    ∷ count_metric prefix "time_to_complete_samples" timing.time_to_complete_samples
    ∷ seconds_metric prefix "time_to_complete_p50" timing.time_to_complete_p50
    ∷ seconds_metric prefix "time_to_complete_p90" timing.time_to_complete_p90
    ∷ count_metric prefix "full_cycle_samples" timing.full_cycle_samples
    ∷ seconds_metric prefix "full_cycle_p50" timing.full_cycle_p50
    ∷ seconds_metric prefix "full_cycle_p90" timing.full_cycle_p90
    ∷ count_metric prefix "time_to_cancel_samples" timing.time_to_cancel_samples
    ∷ seconds_metric prefix "time_to_cancel_p50" timing.time_to_cancel_p50
    ∷ seconds_metric prefix "time_to_cancel_p90" timing.time_to_cancel_p90
    ∷ count_metric prefix "book_size" timing.book_size
    ∷ seconds_metric prefix "book_age_avg" timing.book_age_avg
    ∷ count_metric prefix "funnel.created" timing.funnel.created
    ∷ count_metric prefix "funnel.taken" timing.funnel.taken
    ∷ ratio_metric prefix "funnel.taken_share" (share floats timing.funnel timing.funnel.taken)
    ∷ count_metric prefix "funnel.completed" timing.funnel.completed
    ∷ count_metric prefix "funnel.canceled_taken" timing.funnel.canceled_taken
    ∷ count_metric prefix "funnel.canceled_untaken" timing.funnel.canceled_untaken
    ∷ ratio_metric prefix "funnel.canceled_untaken_share"
        (share floats timing.funnel timing.funnel.canceled_untaken)
    ∷ count_metric prefix "funnel.expired_untaken" timing.funnel.expired_untaken
    ∷ count_metric prefix "funnel.open" timing.funnel.open_now
    ∷ count_metric prefix "unknown_origin" timing.unknown_origin
    ∷ count_metric prefix "regressed" timing.regressed
    ∷ []

pub data Dimension : Type 0 where
  by_fiat by_method by_kind by_instance : Dimension

-- The keys of an order, as it was published first.
unfoldable pub keys : Dimension → Order → List String
keys by_fiat order = order.origin.fiat_code ∷ []
keys by_method order = order.origin.payment_methods
keys by_kind order = direction_str order.origin.direction ∷ []
keys by_instance order = order.instance_name ∷ []

unfoldable pub slice_onto : Dimension → List Order → Map (List Order) → Map (List Order)
unfolding push_groups keys
slice_onto dimension [] groups = groups
slice_onto dimension (order ∷ orders) groups =
    slice_onto dimension orders (push_groups order (keys dimension order) groups)

unfoldable pub slice : List Order → Dimension → Map (List Order)
unfolding slice_onto
slice orders dimension = slice_onto dimension orders []

unfoldable pub group_metrics : Floats → Window → ℤ → Map (List Order) → List Metric
unfolding metrics summarise
group_metrics floats window now [] = []
group_metrics floats window now ((key, group) ∷ groups) =
    metrics floats ("timing." +++ key) (summarise floats group window now)
    ++ group_metrics floats window now groups

unfoldable pub report : Floats → List Order → Window → Option Dimension → ℤ → List Metric
unfolding metrics summarise slice group_metrics
report floats orders window none now = metrics floats "timing" (summarise floats orders window now)
report floats orders window (some dimension) now =
    group_metrics floats window now (slice orders dimension)
