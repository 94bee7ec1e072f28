-- ===== src/Tests/Figures.antt =====
-- Funnels, percentiles and disputes of concrete data.
use bestiario.Prelude.{
  ◌≡◌, ◌⊎◌, ◌*◌, ◌≤◌, ◌<◌, some, none, [], ◌∷◌, arith, str_eq, map, List, String, true, refl, ◌↔◌,
}
use bestiario.Prelude.Int.{ℤ, pos, leb_ℤ, ltb_ℤ, ◌+ℤ◌}
use bestiario.Prelude.Float.{Floats, zero_f64, half_f64, nine_tenths_f64, lt_f64, is_nan}
use bestiario.Prelude.Map.{get}
use bestiario.Stats.Disputes.{DisputeData, all_statuses, initiated, settled, buyer, summarise}
use bestiario.Stats.Disputes.Report.{group_of, by_instance}
use bestiario.Stats.Disputes.Statuses.{sum, of_status, summarise-statuses}
use bestiario.Stats.Disputes.Instances.{by_instance-groups}
use bestiario.Prelude.Lists.{length, select, In}
use bestiario.Stats.Ranking.{ranked}
use bestiario.Stats.Ranking.Entries.{IsRanked, ranked-entries}
use bestiario.Tests.Statistics.{completed_order, thirty}
use bestiario.Stats.Window.{contains}
use bestiario.Stats.Percentile.{
  cmp_ℤ, partial_cmp_f64, percentile, product, unit, rank, round, halvings, nearest, units, clamp,
}
use bestiario.Stats.Percentile.Rank.{tally, percentile-ranked}
use bestiario.Stats.Timing.{funnel_of, pending_in}
use bestiario.Stats.Timing.Ends.{IsBalanced, funnel_of-IsBalanced}

funnel_of-IsBalanced_example :
    IsBalanced (funnel_of (completed_order ∷ []) thirty (pos 40))
    × ((funnel_of (completed_order ∷ []) thirty (pos 40)).created
        ≡ length (select (pending_in thirty) (completed_order ∷ [])))
funnel_of-IsBalanced_example = funnel_of-IsBalanced (completed_order ∷ []) thirty (pos 40)

abbrev two_samples : List ℤ
two_samples = pos 3 ∷ pos 1 ∷ []

percentile-ranked_example :
    (value : ℤ) × (percentile cmp_ℤ two_samples half_f64 ≡ some value)
    × (1 ≤ tally (λ sample. leb_ℤ sample value) two_samples)
    × (product half_f64 2 ≤ tally (λ sample. leb_ℤ sample value) two_samples * unit)
    × ((tally (λ sample. ltb_ℤ sample value) two_samples ≡ 0)
        ⊎ (tally (λ sample. ltb_ℤ sample value) two_samples * unit < product half_f64 2))
percentile-ranked_example = percentile-ranked two_samples half_f64 (omega arith) (omega arith)

half_of_3 : rank half_f64 3 ≡ 2
unfolding rank product round halvings nearest units clamp lt_f64 is_nan
half_of_3 = refl

nine_tenths_of_10 : rank nine_tenths_f64 10 ≡ 9
unfolding rank product round halvings nearest units clamp lt_f64 is_nan
nine_tenths_of_10 = refl

-- A NaN among the samples.
no_rank :
    percentile partial_cmp_f64 (zero_f64 ∷ record { bits = 9221120237041090560 } ∷ []) half_f64
    ≡ none
unfolding percentile partial_cmp_f64 is_nan
no_rank = refl

abbrev floats : Floats
floats = record {
  of_integer = λ n. zero_f64;
  minus = λ a b. a;
  divide = λ a b. a;
  square = λ a. a;
  sum = λ summands. zero_f64;
}

abbrev two_disputes : DisputeData
two_disputes = record {
  disputes =
      record {
        dispute_id = "first";
        instance_name = "node";
        opened_at = pos 12;
        status = initiated;
        initiator = some buyer;
        resolved_at = none;
        outcome = none;
      }
      ∷ record {
        dispute_id = "second";
        instance_name = "other";
        opened_at = pos 14;
        status = settled;
        initiator = none;
        resolved_at = some (pos 20);
        outcome = some settled;
      }
      ∷ [];
  taken = record { order_id = "order-1"; instance_name = "node"; left_pending_at = pos 16 } ∷ [];
}

summarise-statuses_example :
    ((summarise floats two_disputes thirty (pos 40)).by_status
      ≡ map
          (of_status (select (λ dispute. contains thirty dispute.opened_at) two_disputes.disputes))
          all_statuses)
    × (sum (summarise floats two_disputes thirty (pos 40)).by_status
        ≡ (summarise floats two_disputes thirty (pos 40)).opened)
summarise-statuses_example = summarise-statuses floats two_disputes thirty (pos 40)

by_instance-groups_example :
    ((group_of (get "node" (by_instance two_disputes))).disputes
      ≡ select (λ dispute. str_eq dispute.instance_name "node") two_disputes.disputes)
    × ((group_of (get "node" (by_instance two_disputes))).taken
        ≡ select (λ order. str_eq order.instance_name "node") two_disputes.taken)
by_instance-groups_example = by_instance-groups two_disputes "node"

abbrev weights : List (String × ℤ)
weights = ("ARS", pos 2) ∷ ("EUR", pos 0) ∷ ("USD", pos 5) ∷ []

ranked-entries_example :
    (In ("USD", pos 5) (ranked floats weights).entries
      ↔ (In ("USD", pos 5) weights × (ltb_ℤ (pos 0) (pos 5) ≡ true)))
    × IsRanked (ranked floats weights).entries
ranked-entries_example = ranked-entries floats weights ("USD", pos 5)

ranked_runs : (ranked floats weights).entries ≡ ("USD", pos 5) ∷ ("ARS", pos 2) ∷ []
unfolding ranked ◌+ℤ◌
ranked_runs = refl
