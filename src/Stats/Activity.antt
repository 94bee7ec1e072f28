-- ===== src/Stats/Activity.antt =====
-- Orders created, completed and canceled (crates/stats/src/activity.rs).
pub mod Report
pub mod Sums
use bestiario.Prelude.{
  ℕ, suc, ◌+◌, ltb, Bool, true, false, not, ◌&&◌, Option, none, some, String, List, [], ◌∷◌, map,
  if◌then◌else◌, map_or, is_some,
}
use bestiario.Prelude.Int.{ℤ, pos, ltb_ℤ}
use bestiario.Prelude.Float.{F64, Floats}
use bestiario.Prelude.Map.{Map, insert, get}
use bestiario.Stats.Window.{Window, contains, previous}

pub data Status : Type 0 where
  pending in_progress success canceled : Status

abbrev pub status_str : Status → String
status_str pending = "pending"
status_str in_progress = "in-progress"
status_str success = "success"
status_str canceled = "canceled"

abbrev pub is_status : Status → Status → Bool
is_status pending pending = true
is_status in_progress in_progress = true
is_status success success = true
is_status canceled canceled = true
is_status _ _ = false

pub data Direction : Type 0 where
  buy sell : Direction

abbrev pub direction_str : Direction → String
direction_str buy = "buy"
direction_str sell = "sell"

pub record Origin : Type 0 where
  pub fiat_code : String
  pub payment_methods : List String
  pub direction : Direction

pub record Order : Type 0 where
  pub order_id : String
  pub pubkey : String
  pub instance_name : String
  pub created_at : ℤ
  pub status : Status
  pub direction : Direction
  pub fiat_code : String
  pub payment_methods : List String
  pub amount_sats : ℤ
  pub fiat_amount : Option F64
  pub premium : F64
  pub is_market_price : Bool
  pub fiat_range : Option (F64 × F64)
  pub pending_at : Option ℤ
  pub origin : Origin
  pub taken_at : Option ℤ
  pub success_at : Option ℤ
  pub canceled_at : Option ℤ
  pub expires_at : Option ℤ

-- `filter(…).count()`
unfoldable pub count_if : {A : Type 0} → (A → Bool) → List A → ℕ
count_if p [] = 0
count_if p (x ∷ xs) = let rest = count_if p xs in if p x then suc rest else rest

pub record Counts : Type 0 where
  pub created : ℕ
  pub completed : ℕ
  pub canceled : ℕ

abbrev pub no_counts : Counts
no_counts = record { created = 0; completed = 0; canceled = 0 }

-- `then_some(…).flatten()`
abbrev pub where_status : Status → Status → Option ℤ → Option ℤ
where_status wanted status at = if is_status status wanted then at else none

abbrev pub created_in : Window → Order → Bool
created_in window order = contains window order.created_at

abbrev pub dated_in : Window → Option ℤ → Bool
dated_in window none = false
dated_in window (some at) = contains window at

abbrev pub completed_in : Window → Order → Bool
completed_in window order = dated_in window (where_status success order.status order.success_at)

abbrev pub canceled_in : Window → Order → Bool
canceled_in window order = dated_in window (where_status canceled order.status order.canceled_at)

-- `Counts::over`
unfoldable pub over : List Order → Window → Counts
unfolding count_if
over orders window = record {
  created = count_if (created_in window) orders;
  completed = count_if (completed_in window) orders;
  canceled = count_if (canceled_in window) orders;
}

unfoldable pub ratio : Floats → ℕ → ℕ → Option F64
ratio floats numerator denominator =
    if ltb 0 denominator
    then some
        (floats.divide (floats.of_integer (pos numerator)) (floats.of_integer (pos denominator)))
    else none

unfoldable pub growth : Floats → ℕ → ℕ → Option F64
growth floats current previous =
    if ltb 0 previous
    then some (
        floats.divide
          (floats.minus (floats.of_integer (pos current)) (floats.of_integer (pos previous)))
          (floats.of_integer (pos previous)))
    else none

pub record Activity : Type 0 where
  pub created : ℕ
  pub completed : ℕ
  pub canceled : ℕ
  pub completion_rate : Option F64
  pub abandonment_rate : Option F64
  pub open_now : ℕ
  pub in_progress_now : ℕ
  pub created_delta : Option F64
  pub completed_delta : Option F64

abbrev pub abandoned_in : Window → Order → Bool
abandoned_in window order =
    contains window order.created_at
    && (is_status order.status canceled && not (is_some order.taken_at))

abbrev pub is_open : ℤ → Order → Bool
is_open now order =
    is_status order.status pending && map_or order.expires_at false (λ expires. ltb_ℤ now expires)

unfoldable pub summarise_against : Floats → List Order → Window → Option Window → ℤ → Activity
unfolding over ratio growth count_if
summarise_against floats orders window before now =
    let current = over orders window in
    let earlier = map_or before no_counts (over orders) in
    record {
      created = current.created;
      completed = current.completed;
      canceled = current.canceled;
      completion_rate = ratio floats current.completed (current.completed + current.canceled);
      abandonment_rate = ratio floats (count_if (abandoned_in window) orders) current.created;
      open_now = count_if (is_open now) orders;
      in_progress_now = count_if (λ order. is_status order.status in_progress) orders;
      created_delta = growth floats current.created earlier.created;
      completed_delta = growth floats current.completed earlier.completed;
    }

unfoldable pub summarise : Floats → List Order → Window → ℤ → Activity
unfolding summarise_against
summarise floats orders window now =
    summarise_against floats orders window (some (previous window)) now

pub data Dimension : Type 0 where
  by_status by_kind by_fiat by_method by_instance by_month by_day by_hour by_weekday : Dimension

-- The keys of an order; the dimensions of time have none.
unfoldable pub keys : Dimension → Order → List String
keys by_status order = status_str order.status ∷ []
keys by_kind order = direction_str order.direction ∷ []
keys by_fiat order = order.fiat_code ∷ []
keys by_method order = order.payment_methods
keys by_instance order = order.instance_name ∷ []
keys by_month order = []
keys by_day order = []
keys by_hour order = []
keys by_weekday order = []
