-- ===== src/Stats/Timing/Ends.antt =====
-- The ways in which the orders of a funnel end (crates/stats/src/timing.rs).
use bestiario.Prelude.{
  suc, ◌+◌, ◌≤◌, List, [], ◌∷◌, ◌≡◌, Option, none, some, arith, Bool, is_some, true, refl,
  if◌then◌else◌,
}
use bestiario.Prelude.Int.{ℤ}
use bestiario.Prelude.Lists.{length, select}
use bestiario.Stats.Window.{Window}
use bestiario.Stats.Activity.{Order}
use bestiario.Stats.Timing.{
  Terminal, success_at, canceled_at, terminal, was_taken, Funnel, empty_funnel, is_success, ended,
  enter, enter_all, funnel_of, pending_in,
}

-- Every order that was created ended in one way, and no more were taken.
abbrev pub IsBalanced : Funnel → Type 0
IsBalanced funnel =
    (funnel.completed + funnel.canceled_taken + funnel.canceled_untaken + funnel.expired_untaken
        + funnel.open_now
      ≡ funnel.created)
    × (funnel.completed + funnel.canceled_taken ≤ funnel.taken)
    × (funnel.taken ≤ funnel.created)

abbrev entered : Bool → Funnel → Funnel
entered taken funnel = record funnel {
  created = suc funnel.created;
  taken = if taken then suc funnel.taken else funnel.taken;
}

-- Whichever way an order ended, where one that succeeded or that has a taker counts as taken.
ended-IsBalanced :
    (now : ℤ) (order : Order) (funnel : Funnel)
    → IsBalanced funnel
    → (end : Option Terminal) (taken : Bool) → (is_success end ≡ true → taken ≡ true)
    → (is_some order.taken_at ≡ true → taken ≡ true)
    → IsBalanced (ended now order end (entered taken funnel))
unfolding ended
ended-IsBalanced now order funnel (whole, less, fewer) (some (success_at at)) taken success has =
    ground (arith, success refl)
ended-IsBalanced now order funnel (whole, less, fewer) (some (canceled_at at)) taken success has =
    ground arith
ended-IsBalanced now order funnel (whole, less, fewer) none taken success has = ground arith

enter-IsBalanced :
    (now : ℤ) (order : Order) (funnel : Funnel)
    → IsBalanced funnel
    → IsBalanced (enter now order funnel)
unfolding enter
enter-IsBalanced now order funnel balanced =
    ended-IsBalanced now order funnel balanced (terminal order) (was_taken order)
      (λ success. ground arith) (λ has. ground arith)

ended-created :
    (now : ℤ) (order : Order) (end : Option Terminal) (funnel : Funnel)
    → (ended now order end funnel).created ≡ funnel.created
unfolding ended
ended-created now order (some (success_at at)) funnel = refl
ended-created now order (some (canceled_at at)) funnel = ground arith
ended-created now order none funnel = ground arith

enter-created :
    (now : ℤ) (order : Order) (funnel : Funnel)
    → (enter now order funnel).created ≡ suc funnel.created
unfolding enter
enter-created now order funnel =
    ended-created now order (terminal order) (entered (was_taken order) funnel)

enter_all-IsBalanced :
    (now : ℤ) (orders : List Order) (funnel : Funnel)
    → IsBalanced funnel
    → IsBalanced (enter_all now orders funnel)
      × ((enter_all now orders funnel).created ≡ funnel.created + length orders)
unfolding enter_all
enter_all-IsBalanced now [] funnel balanced = (balanced, omega arith)
enter_all-IsBalanced now (order ∷ orders) funnel balanced =
    let (rest, all) =
      enter_all-IsBalanced now orders (enter now order funnel)
        (enter-IsBalanced now order funnel balanced) in
    (rest, omega (arith, all, enter-created now order funnel))

-- The funnel of a window: the orders completed, canceled with and without a taker, expired and
-- still open add up to those created, the ones completed or canceled with a taker are no more than
-- those taken, those are no more than the ones created, and the created are the orders that
-- entered the book in the window.
pub funnel_of-IsBalanced :
    (orders : List Order) (window : Window) (now : ℤ)
    → IsBalanced (funnel_of orders window now)
      × ((funnel_of orders window now).created ≡ length (select (pending_in window) orders))
unfolding funnel_of
funnel_of-IsBalanced orders window now =
    let (balanced, all) =
      enter_all-IsBalanced now (select (pending_in window) orders) empty_funnel
        (refl, omega arith, omega arith) in
    (balanced, omega (arith, all))
