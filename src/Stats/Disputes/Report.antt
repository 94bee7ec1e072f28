-- ===== src/Stats/Disputes/Report.antt =====
-- The metrics of disputes (crates/stats/src/disputes.rs).
use bestiario.Prelude.{ℕ, suc, Option, none, some, String, List, [], ◌∷◌, ◌++◌, map, map_or}
use bestiario.Prelude.Int.{ℤ}
use bestiario.Prelude.Float.{F64, Floats, unit_f64}
use bestiario.Prelude.Join.{◌+++◌}
use bestiario.Prelude.Lists.{length}
use bestiario.Prelude.Map.{Map, get, insert}
use bestiario.Prelude.Text.{show_ℕ}
use bestiario.Stats.Window.{Window, Chrono, Period}
use bestiario.Stats.Window
use bestiario.Stats.Metric.{Metric, observed, seconds_of, text_of, missing_value}
use bestiario.Stats.Bucket.{Coverage, walk_metrics}
use bestiario.Stats.Activity.Report.{count_metric, ratio_metric}
use bestiario.Stats.Disputes.{
  Status, all_statuses, terminal_statuses, as_key, Dispute, OpenDispute, Taken, DisputeData,
  Disputes, summarise,
}

unfoldable pub seconds_metric : String → String → Option ℤ → Metric
unfolding observed
seconds_metric prefix name value =
    observed (prefix +++ "." +++ name) (map_or value missing_value seconds_of)

-- The zip of the statuses with their counts.
unfoldable pub status_rows : String → List Status → List ℕ → List Metric
unfolding count_metric
status_rows prefix (status ∷ statuses) (n ∷ counts) =
    count_metric prefix ("status." +++ as_key status) n ∷ status_rows prefix statuses counts
status_rows prefix statuses counts = []

unfoldable pub status_metrics : String → Disputes → List Metric
unfolding status_rows
status_metrics prefix disputes = status_rows prefix all_statuses disputes.by_status

unfoldable pub initiator_metrics : Floats → String → Disputes → List Metric
unfolding ratio_metric
initiator_metrics floats prefix disputes =
    ratio_metric prefix "initiator.buyer" disputes.buyer_share
    ∷ ratio_metric prefix "initiator.seller"
        (map_or disputes.buyer_share none (λ share. some (floats.minus unit_f64 share)))
    ∷ []

-- `shares[index]` of each way to end.
abbrev tail_of : Option (List F64) → Option (List F64)
tail_of (some (share ∷ shares)) = some shares
tail_of _ = none

abbrev head_of : Option (List F64) → Option F64
head_of (some (share ∷ shares)) = some share
head_of _ = none

unfoldable pub outcome_rows : String → List Status → Option (List F64) → List Metric
unfolding ratio_metric
outcome_rows prefix [] shares = []
outcome_rows prefix (status ∷ statuses) shares =
    ratio_metric prefix ("outcome." +++ as_key status) (head_of shares)
    ∷ outcome_rows prefix statuses (tail_of shares)

unfoldable pub dated_metrics : Floats → String → Disputes → List Metric
unfolding status_metrics initiator_metrics outcome_rows seconds_metric
dated_metrics floats prefix disputes =
    (count_metric prefix "opened" disputes.opened ∷ status_metrics prefix disputes)
    ++ initiator_metrics floats prefix disputes
    ++ (ratio_metric prefix "rate" disputes.rate
        ∷ count_metric prefix "resolved" disputes.resolved
        ∷ outcome_rows prefix terminal_statuses disputes.outcome)
    ++ (seconds_metric prefix "resolution_p50" disputes.resolution_p50
        ∷ seconds_metric prefix "resolution_p90" disputes.resolution_p90
        ∷ [])

-- The open disputes, numbered from 1.
unfoldable pub open_rows : String → ℕ → List OpenDispute → List Metric
unfolding observed seconds_metric show_ℕ
open_rows prefix n [] = []
open_rows prefix n (dispute ∷ disputes) =
    observed (prefix +++ ".open." +++ show_ℕ n +++ ".id") (text_of dispute.dispute_id)
    ∷ seconds_metric prefix ("open." +++ show_ℕ n +++ ".age") (some dispute.age)
    ∷ open_rows prefix (suc n) disputes

unfoldable pub metrics : Floats → String → Disputes → List Metric
unfolding dated_metrics open_rows
metrics floats prefix disputes =
    dated_metrics floats prefix disputes
    ++ (count_metric prefix "open_now" (length disputes.still_open)
        ∷ open_rows prefix 1 disputes.still_open)

-- `Disputes::default()`
abbrev no_disputes : Disputes
no_disputes = record {
  opened = 0;
  by_status = 0 ∷ 0 ∷ 0 ∷ 0 ∷ 0 ∷ 0 ∷ [];
  buyer_share = none;
  rate = none;
  resolved = 0;
  outcome = none;
  resolution_p50 = none;
  resolution_p90 = none;
  still_open = [];
}

unfoldable pub unavailable : Floats → String → List Metric
unfolding metrics observed
unavailable floats prefix =
    map (λ metric. observed metric.name missing_value) (metrics floats prefix no_disputes)

pub data Dimension : Type 0 where
  by_status by_initiator by_instance_name by_month by_day : Dimension

abbrev pub group_of : Option DisputeData → DisputeData
group_of none = record { disputes = []; taken = [] }
group_of (some group) = group

unfoldable pub push_dispute : Dispute → Map DisputeData → Map DisputeData
unfolding get insert
push_dispute dispute groups =
    let group = group_of (get dispute.instance_name groups) in
    insert dispute.instance_name (record group { disputes = group.disputes ++ (dispute ∷ []) })
      groups

unfoldable pub push_taken : Taken → Map DisputeData → Map DisputeData
unfolding get insert
push_taken order groups =
    let group = group_of (get order.instance_name groups) in
    insert order.instance_name (record group { taken = group.taken ++ (order ∷ []) }) groups

unfoldable pub push_disputes : List Dispute → Map DisputeData → Map DisputeData
unfolding push_dispute
push_disputes [] groups = groups
push_disputes (dispute ∷ disputes) groups = push_disputes disputes (push_dispute dispute groups)

unfoldable pub push_all_taken : List Taken → Map DisputeData → Map DisputeData
unfolding push_taken
push_all_taken [] groups = groups
push_all_taken (order ∷ orders) groups = push_all_taken orders (push_taken order groups)

unfoldable pub by_instance : DisputeData → Map DisputeData
unfolding push_disputes push_all_taken
by_instance data_set = push_all_taken data_set.taken (push_disputes data_set.disputes [])

unfoldable pub group_metrics : Floats → Window → ℤ → Map DisputeData → List Metric
unfolding metrics summarise
group_metrics floats window now [] = []
group_metrics floats window now ((key, group) ∷ groups) =
    metrics floats ("disputes." +++ key) (summarise floats group window now)
    ++ group_metrics floats window now groups

abbrev periodic :
    Floats → Chrono → DisputeData → Window → ℤ → ℕ → Coverage → Period → Option (List Metric)
periodic floats chrono data_set window now fuel coverage period =
    walk_metrics chrono window period fuel coverage (λ key bucket before.
      dated_metrics floats ("disputes." +++ key) (summarise floats data_set bucket now))

unfoldable pub report :
    Floats
    → Chrono
    → DisputeData
    → Window
    → ℤ
    → ℕ
    → Option Dimension
    → Coverage
    → Option (List Metric)
unfolding walk_metrics dated_metrics group_metrics by_instance status_metrics initiator_metrics
report floats chrono data_set window now fuel none coverage =
    some (metrics floats "disputes" (summarise floats data_set window now))
report floats chrono data_set window now fuel (some by_status) coverage =
    some (status_metrics "disputes" (summarise floats data_set window now))
report floats chrono data_set window now fuel (some by_initiator) coverage =
    some (initiator_metrics floats "disputes" (summarise floats data_set window now))
report floats chrono data_set window now fuel (some by_instance_name) coverage =
    some (group_metrics floats window now (by_instance data_set))
report floats chrono data_set window now fuel (some by_month) coverage =
    periodic floats chrono data_set window now fuel coverage Window.month
report floats chrono data_set window now fuel (some by_day) coverage =
    periodic floats chrono data_set window now fuel coverage Window.day
