-- ===== src/Stats/Timing.antt =====
-- How long orders take, and how they end (crates/stats/src/timing.rs).
pub mod Report
pub mod Ends
use bestiario.Prelude.{
  ℕ, ◌/◌, ltb, Bool, true, false, not, ◌&&◌, ◌||◌, Option, none, some, String, List, [], ◌∷◌,
  and_then, map_or, is_some, if◌then◌else◌, suc,
}
use bestiario.Prelude.Int.{ℤ, pos, pos_part, ◌+ℤ◌, ltb_ℤ, leb_ℤ, i64_max, checked_sub}
use bestiario.Prelude.Float.{F64, Floats, half_f64, nine_tenths_f64}
use bestiario.Prelude.Lists.{length, select, collect}
use bestiario.Stats.Window.{Window, contains}
use bestiario.Stats.Percentile.{cmp_ℤ, percentile}
use bestiario.Stats.Activity.{Order, count_if}

-- The end that an order came to, and when.
pub data Terminal : Type 0 where
  success_at canceled_at : ℤ → Terminal

unfoldable pub terminal_of : Option ℤ → Option ℤ → Option Terminal
terminal_of (some success) (some canceled) =
    if ltb_ℤ canceled success then some (canceled_at canceled) else some (success_at success)
terminal_of (some success) none = some (success_at success)
terminal_of none (some canceled) = some (canceled_at canceled)
terminal_of none none = none

abbrev pub terminal : Order → Option Terminal
terminal order = terminal_of order.success_at order.canceled_at

abbrev pub expires_after : ℤ → Order → Bool
expires_after now order = map_or order.expires_at false (λ expires. ltb_ℤ now expires)

unfoldable pub book_age : ℤ → Order → Option ℤ
unfolding terminal_of checked_sub
book_age now order =
    if not (is_some order.taken_at) && not (is_some (terminal order)) && expires_after now order
    then and_then order.pending_at
        (λ pending. if leb_ℤ pending now then checked_sub now pending else none)
    else none

pub record Funnel : Type 0 where
  pub created : ℕ
  pub taken : ℕ
  pub completed : ℕ
  pub canceled_taken : ℕ
  pub canceled_untaken : ℕ
  pub expired_untaken : ℕ
  pub open_now : ℕ

abbrev pub empty_funnel : Funnel
empty_funnel = record {
  created = 0;
  taken = 0;
  completed = 0;
  canceled_taken = 0;
  canceled_untaken = 0;
  expired_untaken = 0;
  open_now = 0;
}

abbrev pub is_success : Option Terminal → Bool
is_success (some (success_at at)) = true
is_success _ = false

abbrev pub was_taken : Order → Bool
was_taken order = is_some order.taken_at || is_success (terminal order)

abbrev pub has_expired : ℤ → Order → Bool
has_expired now order = map_or order.expires_at false (λ expires. leb_ℤ expires now)

-- The `match` on the end of an order.
unfoldable pub ended : ℤ → Order → Option Terminal → Funnel → Funnel
ended now order (some (success_at at)) funnel = record funnel { completed = suc funnel.completed }
ended now order (some (canceled_at at)) funnel =
    if is_some order.taken_at
    then record funnel { canceled_taken = suc funnel.canceled_taken }
    else record funnel { canceled_untaken = suc funnel.canceled_untaken }
ended now order none funnel =
    if not (was_taken order) && has_expired now order
    then record funnel { expired_untaken = suc funnel.expired_untaken }
    else record funnel { open_now = suc funnel.open_now }

-- The body of the loop.
unfoldable pub enter : ℤ → Order → Funnel → Funnel
unfolding ended terminal_of
enter now order funnel = ended now order (terminal order) (record funnel {
  created = suc funnel.created;
  taken = if was_taken order then suc funnel.taken else funnel.taken;
})

unfoldable pub enter_all : ℤ → List Order → Funnel → Funnel
unfolding enter
enter_all now [] funnel = funnel
enter_all now (order ∷ orders) funnel = enter_all now orders (enter now order funnel)

abbrev pub pending_in : Window → Order → Bool
pending_in window order = map_or order.pending_at false (contains window)

unfoldable pub funnel_of : List Order → Window → ℤ → Funnel
unfolding enter_all select
funnel_of orders window now = enter_all now (select (pending_in window) orders) empty_funnel

-- `gaps`: from one second of an order to another that lies in the window, where time passed.
abbrev pub gap : (Order → Option ℤ) → (Order → Option ℤ) → Window → Order → Option ℤ
gap from to window order = and_then (from order) (λ start. and_then (to order) (λ end.
    if contains window end
    then and_then (checked_sub end start) (λ gap. if ltb_ℤ (pos 0) gap then some gap else none)
    else none))

abbrev pub success_of : Order → Option ℤ
success_of order = elim (terminal order) [ some (success_at at) ↦ some at | _ ↦ none ]

abbrev pub canceled_of : Order → Option ℤ
canceled_of order = elim (terminal order) [ some (canceled_at at) ↦ some at | _ ↦ none ]

-- The sum of ages, which are never negative, in 128 bits.
unfoldable pub sum_ages : List ℤ → ℕ
sum_ages [] = 0
sum_ages (age ∷ ages) = pos_part (age +ℤ pos (sum_ages ages))

unfoldable pub age_average : List ℤ → Option ℤ
unfolding sum_ages
age_average [] = none
age_average (age ∷ ages) =
    let average = pos (sum_ages (age ∷ ages) / length (age ∷ ages)) in
    if leb_ℤ average i64_max then some average else none

pub record Timing : Type 0 where
  pub time_to_fill_samples : ℕ
  pub time_to_fill_p50 : Option ℤ
  pub time_to_fill_p90 : Option ℤ
  pub time_to_complete_samples : ℕ
  pub time_to_complete_p50 : Option ℤ
  pub time_to_complete_p90 : Option ℤ
  pub full_cycle_samples : ℕ
  pub full_cycle_p50 : Option ℤ
  pub full_cycle_p90 : Option ℤ
  pub time_to_cancel_samples : ℕ
  pub time_to_cancel_p50 : Option ℤ
  pub time_to_cancel_p90 : Option ℤ
  pub book_size : ℕ
  pub book_age_avg : Option ℤ
  pub funnel : Funnel
  pub unknown_origin : ℕ
  pub regressed : ℕ

unfoldable pub summarise : Floats → List Order → Window → ℤ → Timing
unfolding contains collect checked_sub terminal_of book_age age_average funnel_of count_if
    percentile
summarise floats orders window now =
    let fills = collect (gap (λ o. o.pending_at) (λ o. o.taken_at) window) orders in
    let completes = collect (gap (λ o. o.taken_at) success_of window) orders in
    let cycles = collect (gap (λ o. o.pending_at) success_of window) orders in
    let cancels = collect (gap (λ o. o.pending_at) canceled_of window) orders in
    let ages = collect (book_age now) orders in
    record {
      time_to_fill_samples = length fills;
      time_to_fill_p50 = percentile cmp_ℤ fills half_f64;
      time_to_fill_p90 = percentile cmp_ℤ fills nine_tenths_f64;
      time_to_complete_samples = length completes;
      time_to_complete_p50 = percentile cmp_ℤ completes half_f64;
      time_to_complete_p90 = percentile cmp_ℤ completes nine_tenths_f64;
      full_cycle_samples = length cycles;
      full_cycle_p50 = percentile cmp_ℤ cycles half_f64;
      full_cycle_p90 = percentile cmp_ℤ cycles nine_tenths_f64;
      time_to_cancel_samples = length cancels;
      time_to_cancel_p50 = percentile cmp_ℤ cancels half_f64;
      time_to_cancel_p90 = percentile cmp_ℤ cancels nine_tenths_f64;
      book_size = length ages;
      book_age_avg = age_average ages;
      funnel = funnel_of orders window now;
      unknown_origin =
          count_if (λ order. not (is_some order.pending_at) && contains window order.created_at)
            orders;
      regressed = count_if (λ order. is_some order.success_at && is_some order.canceled_at) orders;
    }
