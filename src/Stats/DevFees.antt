-- ===== src/Stats/DevFees.antt =====
-- Development fees paid and owed (crates/stats/src/dev_fees.rs).
pub mod Report
use bestiario.Prelude.{
  ℕ, Bool, true, false, not, ◌&&◌, Option, none, some, String, List, [], ◌∷◌, map, str_eq, map_or,
}
use bestiario.Prelude.Int.{ℤ, pos, ◌+ℤ◌, ◌-ℤ◌, wrap_i64}
use bestiario.Prelude.Float.{F64, Floats, half_f64, nine_tenths_f64}
use bestiario.Prelude.Lists.{length, select, collect}
use bestiario.Prelude.Map.{contains}
use bestiario.Stats.Window.{Window}
use bestiario.Stats.Window
use bestiario.Stats.Percentile.{cmp_ℤ, percentile}
use bestiario.Stats.Activity.{count_if}

pub record Fee : Type 0 where
  pub event_id : String
  pub order_id : String
  pub pubkey : String
  pub instance_name : String
  pub created_at : ℤ
  pub amount_sats : ℤ
  pub is_duplicate : Bool
  pub order_known : Bool
  pub settled_at : Option ℤ
  pub fee_in_force : Option F64
  pub settled_amount_sats : Option ℤ

pub record Settlement : Type 0 where
  pub order_id : String
  pub instance_name : String
  pub success_at : ℤ
  pub has_fee : Bool
  pub charges_fee : Option Bool

pub record DevFeeData : Type 0 where
  pub fees : List Fee
  pub settlements : List Settlement

pub record DevFees : Type 0 where
  pub total_sats : ℤ
  pub paid : ℕ
  pub coverage : Option F64
  pub latency_p50 : Option ℤ
  pub latency_p90 : Option ℤ
  pub duplicates : ℕ
  pub orphans : ℕ

unfoldable pub canonical : DevFeeData → Window → List Fee
unfolding Window.contains select
canonical data_set window =
    select (λ fee. not fee.is_duplicate && Window.contains window fee.created_at) data_set.fees

-- A sum of `i64`, which wraps around.
unfoldable pub sum_sats : List Fee → ℤ
sum_sats [] = pos 0
sum_sats (fee ∷ fees) = wrap_i64 (fee.amount_sats +ℤ sum_sats fees)

abbrev pub latency : Fee → Option ℤ
latency fee = map_or fee.settled_at none (λ settled. some (wrap_i64 (fee.created_at -ℤ settled)))

abbrev pub is_owed : Window → Settlement → Bool
is_owed window settlement =
    Window.contains window settlement.success_at && map_or settlement.charges_fee false (λ b. b)

-- The share that was paid of what was owed, where anything was.
unfoldable pub covered_share : Floats → List Settlement → Option F64
unfolding count_if
covered_share floats [] = none
covered_share floats (s ∷ ss) = some (
    floats.divide (floats.of_integer (pos (count_if (λ settlement. settlement.has_fee) (s ∷ ss))))
      (floats.of_integer (pos (length (s ∷ ss)))))

-- The orders with a fee that repeats another.
unfoldable pub doubly_paid : DevFeeData → List String
unfolding select
doubly_paid data_set = map (λ fee. fee.order_id) (select (λ fee. fee.is_duplicate) data_set.fees)

unfoldable pub summarise : Floats → DevFeeData → Window → DevFees
unfolding canonical doubly_paid sum_sats covered_share percentile collect count_if contains select
summarise floats data_set window =
    let fees = canonical data_set window in
    let latencies = collect latency fees in
    let repeated = doubly_paid data_set in
    record {
      total_sats = sum_sats fees;
      paid = length fees;
      coverage = covered_share floats (select (is_owed window) data_set.settlements);
      latency_p50 = percentile cmp_ℤ latencies half_f64;
      latency_p90 = percentile cmp_ℤ latencies nine_tenths_f64;
      duplicates = count_if (λ fee. contains fee.order_id repeated) fees;
      orphans = count_if (λ fee. not fee.order_known) fees;
    }
