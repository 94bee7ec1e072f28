-- ===== src/Stats/Activity/Report.antt =====
-- The groups, the histograms and the metrics of orders (crates/stats/src/activity.rs).
use bestiario.Prelude.{
  ℕ, zero, suc, Option, none, some, String, List, [], ◌∷◌, ◌++◌, if◌then◌else◌, map_or,
}
use bestiario.Prelude.Int.{ℤ, as_i64}
use bestiario.Prelude.Float.{F64, Floats}
use bestiario.Prelude.Map.{Map, insert, get}
use bestiario.Prelude.Join.{◌+++◌}
use bestiario.Publish.Address.{padded}
use bestiario.Stats.Window.{Window, DateTime, Chrono, Period, contains}
use bestiario.Stats.Window
use bestiario.Stats.Metric.{Metric, observed, count_of, missing_value, ratio_value}
use bestiario.Stats.Bucket.{Coverage, walk_metrics}
use bestiario.Stats.Activity.{
  Order, is_status, success, Activity, summarise, summarise_against, Dimension, by_month, by_day,
  by_hour, by_weekday, keys,
}

-- `groups.entry(key).or_default().push(order)`
unfoldable pub push_group : Order → String → Map (List Order) → Map (List Order)
unfolding get insert
push_group order key groups =
    insert key (map_or (get key groups) [] (λ group. group) ++ (order ∷ [])) groups

unfoldable pub push_groups : Order → List String → Map (List Order) → Map (List Order)
unfolding push_group
push_groups order [] groups = groups
push_groups order (key ∷ more) groups = push_groups order more (push_group order key groups)

unfoldable pub slice_onto : Dimension → List Order → Map (List Order) → Map (List Order)
unfolding push_groups keys
slice_onto dimension [] groups = groups
slice_onto dimension (order ∷ orders) groups =
    slice_onto dimension orders (push_groups order (keys dimension order) groups)

unfoldable pub slice : List Order → Dimension → Map (List Order)
unfolding slice_onto
slice orders dimension = slice_onto dimension orders []

pub record Histogram : Type 0 where
  pub labels : List String
  pub created : List ℕ
  pub completed : List ℕ

-- `vec![0; buckets]`, and `counts[bucket] += 1`.
unfoldable pub zeros : ℕ → List ℕ
zeros zero = []
zeros (suc n) = 0 ∷ zeros n

unfoldable pub bump : ℕ → List ℕ → List ℕ
bump n [] = []
bump zero (c ∷ cs) = suc c ∷ cs
bump (suc n) (c ∷ cs) = c ∷ bump n cs

-- A second that lies in the window and that chrono can name, counted where it belongs.
unfoldable pub tally : Chrono → Window → (DateTime → ℕ) → Option ℤ → List ℕ → List ℕ
unfolding bump
tally chrono window bucket_of none counts = counts
tally chrono window bucket_of (some second) counts =
    if contains window second
    then map_or (chrono.from_timestamp second) counts (λ moment. bump (bucket_of moment) counts)
    else counts

unfoldable pub count_orders :
    Chrono → Window → (DateTime → ℕ) → List Order → List ℕ × List ℕ → List ℕ × List ℕ
unfolding tally
count_orders chrono window bucket_of [] counts = counts
count_orders chrono window bucket_of (order ∷ orders) (created, completed) =
    count_orders chrono window bucket_of orders (
      tally chrono window bucket_of (some order.created_at) created,
      tally chrono window bucket_of
          (if is_status order.status success then order.success_at else none) completed,
    )

unfoldable pub histogram :
    Chrono → List Order → Window → List String → ℕ → (DateTime → ℕ) → Histogram
unfolding count_orders zeros
histogram chrono orders window labels buckets bucket_of =
    let counts = count_orders chrono window bucket_of orders (zeros buckets, zeros buckets) in
    record { labels = labels; created = counts.0; completed = counts.1 }

-- `(0..buckets).map(label_of)`, from a number on.
unfoldable pub hour_labels : ℕ → ℕ → List String
unfolding padded
hour_labels zero hour = []
hour_labels (suc left) hour = padded 2 hour String.[] ∷ hour_labels left (suc hour)

abbrev pub days : List String
days = "mon" ∷ "tue" ∷ "wed" ∷ "thu" ∷ "fri" ∷ "sat" ∷ "sun" ∷ []

unfoldable pub hours_of : Chrono → List Order → Window → Histogram
unfolding histogram hour_labels
hours_of chrono orders window =
    histogram chrono orders window (hour_labels 24 0) 24 (λ moment. moment.hour)

unfoldable pub weekdays_of : Chrono → List Order → Window → Histogram
unfolding histogram
weekdays_of chrono orders window = histogram chrono orders window days 7 (λ moment. moment.weekday)

-- `fn count` and `ratio_metric`
unfoldable pub count_metric : String → String → ℕ → Metric
unfolding observed
count_metric prefix name value = observed (prefix +++ "." +++ name) (count_of (as_i64 value))

unfoldable pub ratio_metric : String → String → Option F64 → Metric
unfolding observed ratio_value
ratio_metric prefix name value =
    observed (prefix +++ "." +++ name) (map_or value missing_value ratio_value)

unfoldable pub dated_metrics : String → Activity → List Metric
unfolding count_metric ratio_metric
dated_metrics prefix activity =
    count_metric prefix "created" activity.created
    ∷ count_metric prefix "completed" activity.completed
    ∷ count_metric prefix "canceled" activity.canceled
    ∷ ratio_metric prefix "completion_rate" activity.completion_rate
    ∷ ratio_metric prefix "abandonment_rate" activity.abandonment_rate
    ∷ ratio_metric prefix "created_delta" activity.created_delta
    ∷ ratio_metric prefix "completed_delta" activity.completed_delta
    ∷ []

unfoldable pub metrics : String → Activity → List Metric
unfolding dated_metrics
metrics prefix activity =
    dated_metrics prefix activity
    ++ (count_metric prefix "open_now" activity.open_now
        ∷ count_metric prefix "in_progress_now" activity.in_progress_now
        ∷ [])

-- The zip of the labels with both counts.
unfoldable pub histogram_rows : String → List String → List ℕ → List ℕ → List Metric
unfolding count_metric
histogram_rows prefix (label ∷ labels) (c ∷ created) (d ∷ completed) =
    count_metric (prefix +++ "." +++ label) "created" c
    ∷ count_metric (prefix +++ "." +++ label) "completed" d
    ∷ histogram_rows prefix labels created completed
histogram_rows prefix labels created completed = []

unfoldable pub histogram_metrics : String → Histogram → List Metric
unfolding histogram_rows
histogram_metrics prefix histogram =
    histogram_rows prefix histogram.labels histogram.created histogram.completed

unfoldable pub group_metrics : Floats → Window → ℤ → List (String × List Order) → List Metric
unfolding metrics summarise
group_metrics floats window now [] = []
group_metrics floats window now ((key, group) ∷ groups) =
    metrics ("orders." +++ key) (summarise floats group window now)
    ++ group_metrics floats window now groups

unfoldable pub periodic :
    Floats → Chrono → List Order → Window → ℤ → ℕ → Coverage → Period → Option (List Metric)
unfolding walk_metrics dated_metrics summarise_against
periodic floats chrono orders window now fuel coverage period =
    walk_metrics chrono window period fuel coverage (λ key bucket before.
      dated_metrics ("orders." +++ key) (summarise_against floats orders bucket before now))

unfoldable pub report :
    Floats
    → Chrono
    → List Order
    → Window
    → ℤ
    → ℕ
    → Option Dimension
    → Coverage
    → Option (List Metric)
unfolding periodic group_metrics histogram_metrics hours_of weekdays_of slice
report floats chrono orders window now fuel none coverage =
    some (metrics "orders" (summarise floats orders window now))
report floats chrono orders window now fuel (some by_month) coverage =
    periodic floats chrono orders window now fuel coverage Window.month
report floats chrono orders window now fuel (some by_day) coverage =
    periodic floats chrono orders window now fuel coverage Window.day
report floats chrono orders window now fuel (some by_hour) coverage =
    some (histogram_metrics "orders.hour" (hours_of chrono orders window))
report floats chrono orders window now fuel (some by_weekday) coverage =
    some (histogram_metrics "orders.weekday" (weekdays_of chrono orders window))
report floats chrono orders window now fuel (some dimension) coverage =
    some (group_metrics floats window now (slice orders dimension))
