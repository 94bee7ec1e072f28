-- ===== src/Stats/Metric.antt =====
-- What a statistic is reported as (crates/stats/src/metric.rs).
use bestiario.Prelude.{Option, none, some, String, if◌then◌else◌}
use bestiario.Prelude.Int.{ℤ}
use bestiario.Prelude.Float.{F64, is_finite}

pub data MetricKind : Type 0 where
  observed_kind inferred_kind : MetricKind

-- `missing_value` is `Missing`.
pub data Value : Type 0 where
  count_of sats seconds_of : ℤ → Value
  ratio_of : F64 → Value
  fiat_of : F64 → String → Value
  text_of : String → Value
  missing_value : Value

unfoldable pub ratio_value : F64 → Value
ratio_value ratio = if is_finite ratio then ratio_of ratio else missing_value

unfoldable pub fiat_value : F64 → String → Value
fiat_value amount code = if is_finite amount then fiat_of amount code else missing_value

unfoldable pub normalised : Value → Value
normalised (ratio_of ratio) = if is_finite ratio then ratio_of ratio else missing_value
normalised (fiat_of amount code) = if is_finite amount then fiat_of amount code else missing_value
normalised (count_of n) = count_of n
normalised (sats n) = sats n
normalised (seconds_of n) = seconds_of n
normalised (text_of text) = text_of text
normalised missing_value = missing_value

pub record Metric : Type 0 where
  pub name : String
  pub kind : MetricKind
  pub value : Value
  pub error : Option String

unfoldable pub observed : String → Value → Metric
observed name value = record { name = name; kind = observed_kind; value = value; error = none }

unfoldable pub inferred : String → Value → String → Metric
inferred name value error = record {
  name = name;
  kind = inferred_kind;
  value = value;
  error = some error;
}

unfoldable pub missing : Metric → Metric
missing metric = record metric { value = missing_value }
