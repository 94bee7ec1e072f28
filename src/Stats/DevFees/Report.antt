-- ===== src/Stats/DevFees/Report.antt =====
-- The metrics of development fees, and their split by instance (crates/stats/src/dev_fees.rs).
use bestiario.Prelude.{Option, none, some, String, List, [], ◌∷◌, ◌++◌}
use bestiario.Prelude.Map.{Map, get, insert}
use bestiario.Prelude.Join.{◌+++◌}
use bestiario.Stats.Metric.{Metric, observed, sats}
use bestiario.Stats.Activity.Report.{count_metric, ratio_metric}
use bestiario.Stats.Disputes.Report.{seconds_metric}
use bestiario.Stats.DevFees.{Fee, Settlement, DevFeeData, DevFees}

abbrev group_of : Option DevFeeData → DevFeeData
group_of none = record { fees = []; settlements = [] }
group_of (some group) = group

unfoldable pub push_fee : Fee → Map DevFeeData → Map DevFeeData
unfolding get insert
push_fee fee groups =
    let group = group_of (get fee.instance_name groups) in
    insert fee.instance_name (record group { fees = group.fees ++ (fee ∷ []) }) groups

unfoldable pub push_settlement : Settlement → Map DevFeeData → Map DevFeeData
unfolding get insert
push_settlement settlement groups =
    let group = group_of (get settlement.instance_name groups) in
    insert settlement.instance_name
      (record group { settlements = group.settlements ++ (settlement ∷ []) }) groups

unfoldable pub push_fees : List Fee → Map DevFeeData → Map DevFeeData
unfolding push_fee
push_fees [] groups = groups
push_fees (fee ∷ fees) groups = push_fees fees (push_fee fee groups)

unfoldable pub push_settlements : List Settlement → Map DevFeeData → Map DevFeeData
unfolding push_settlement
push_settlements [] groups = groups
push_settlements (settlement ∷ settlements) groups =
    push_settlements settlements (push_settlement settlement groups)

unfoldable pub by_instance : DevFeeData → Map DevFeeData
unfolding push_fees push_settlements
by_instance data_set = push_settlements data_set.settlements (push_fees data_set.fees [])

unfoldable pub metrics : String → DevFees → List Metric
unfolding observed count_metric ratio_metric seconds_metric
metrics prefix dev_fees =
    observed (prefix +++ ".total_sats") (sats dev_fees.total_sats)
    ∷ count_metric prefix "paid" dev_fees.paid
    ∷ ratio_metric prefix "coverage" dev_fees.coverage
    ∷ seconds_metric prefix "latency_p50" dev_fees.latency_p50
    ∷ seconds_metric prefix "latency_p90" dev_fees.latency_p90
    ∷ count_metric prefix "duplicates" dev_fees.duplicates
    ∷ count_metric prefix "orphans" dev_fees.orphans
    ∷ []
