-- ===== src/Stats/Disputes.antt =====
-- Disputes opened, resolved and still open (crates/stats/src/disputes.rs).
pub mod Report
pub mod Statuses
pub mod Instances
use bestiario.Prelude.{
  ℕ, zero, suc, ltb, Bool, true, false, ◌&&◌, ◌||◌, Option, none, some, String, List, [], ◌∷◌, map,
  if◌then◌else◌, map_or, is_some,
}
use bestiario.Prelude.Int.{ℤ, pos, ◌-ℤ◌, ltb_ℤ, leb_ℤ, eqb_ℤ, wrap_i64}
use bestiario.Prelude.Float.{F64, Floats, half_f64, nine_tenths_f64}
use bestiario.Prelude.Lists.{length, select, collect}
use bestiario.Stats.Window.{Window, contains}
use bestiario.Stats.Percentile.{cmp_ℤ, percentile}
use bestiario.Stats.Activity.{count_if, ratio}
use Prim.Native.Nat.{Ordering}
use Prim.Native.String.{compare}

pub data Status : Type 0 where
  initiated in_progress seller_refunded settled released cooperatively_canceled : Status

abbrev pub all_statuses : List Status
all_statuses =
    initiated ∷ in_progress ∷ seller_refunded ∷ settled ∷ released ∷ cooperatively_canceled ∷ []

abbrev pub terminal_statuses : List Status
terminal_statuses = seller_refunded ∷ settled ∷ released ∷ cooperatively_canceled ∷ []

abbrev pub as_key : Status → String
as_key initiated = "initiated"
as_key in_progress = "in_progress"
as_key seller_refunded = "seller_refunded"
as_key settled = "settled"
as_key released = "released"
as_key cooperatively_canceled = "cooperatively_canceled"

-- `Self::ALL.position(…)`
abbrev pub status_index : Status → ℕ
status_index initiated = 0
status_index in_progress = 1
status_index seller_refunded = 2
status_index settled = 3
status_index released = 4
status_index cooperatively_canceled = 5

abbrev pub is_status : Status → Status → Bool
is_status initiated initiated = true
is_status in_progress in_progress = true
is_status seller_refunded seller_refunded = true
is_status settled settled = true
is_status released released = true
is_status cooperatively_canceled cooperatively_canceled = true
is_status _ _ = false

pub data Initiator : Type 0 where
  buyer seller : Initiator

pub record Dispute : Type 0 where
  pub dispute_id : String
  pub instance_name : String
  pub opened_at : ℤ
  pub status : Status
  pub initiator : Option Initiator
  pub resolved_at : Option ℤ
  pub outcome : Option Status

pub record OpenDispute : Type 0 where
  pub dispute_id : String
  pub age : ℤ

pub record Taken : Type 0 where
  pub order_id : String
  pub instance_name : String
  pub left_pending_at : ℤ

pub record DisputeData : Type 0 where
  pub disputes : List Dispute
  pub taken : List Taken

pub record Disputes : Type 0 where
  pub opened : ℕ
  pub by_status : List ℕ
  pub buyer_share : Option F64
  pub rate : Option F64
  pub resolved : ℕ
  pub outcome : Option (List F64)
  pub resolution_p50 : Option ℤ
  pub resolution_p90 : Option ℤ
  pub still_open : List OpenDispute

-- `by_status[index] += 1`
unfoldable pub bump : ℕ → List ℕ → List ℕ
bump n [] = []
bump zero (c ∷ cs) = suc c ∷ cs
bump (suc n) (c ∷ cs) = c ∷ bump n cs

unfoldable pub count_statuses : List Dispute → List ℕ → List ℕ
unfolding bump
count_statuses [] counts = counts
count_statuses (dispute ∷ disputes) counts =
    count_statuses disputes (bump (status_index dispute.status) counts)

abbrev pub is_buyer : Option Initiator → Bool
is_buyer (some buyer) = true
is_buyer _ = false

abbrev pub has_outcome : Status → Option Status → Bool
has_outcome wanted none = false
has_outcome wanted (some status) = is_status status wanted

abbrev pub resolved_in : Window → Dispute → Bool
resolved_in window dispute = map_or dispute.resolved_at false (contains window)

-- The share of each way to end, among the disputes that were resolved.
unfoldable pub outcome_shares : Floats → List Dispute → Option (List F64)
unfolding count_if
outcome_shares floats [] = none
outcome_shares floats (d ∷ ds) = some (
    map
      (λ status.
        floats.divide
          (floats.of_integer
            (pos (count_if (λ dispute. has_outcome status dispute.outcome) (d ∷ ds))))
          (floats.of_integer (pos (length (d ∷ ds)))))
      terminal_statuses)

-- `at - d.opened_at`
abbrev pub resolution : Dispute → Option ℤ
resolution dispute =
    map_or dispute.resolved_at none (λ at. some (wrap_i64 (at -ℤ dispute.opened_at)))

-- The order of the disputes that are open: by their second, then by their id.
abbrev pub opens_before : Dispute → Dispute → Bool
opens_before a b =
    ltb_ℤ a.opened_at b.opened_at
    || eqb_ℤ a.opened_at b.opened_at
      && (elim (compare a.dispute_id b.dispute_id) [ Ordering.lt ↦ true | _ ↦ false ])

unfoldable pub insert_open : Dispute → List Dispute → List Dispute
insert_open a [] = a ∷ []
insert_open a (b ∷ bs) =
    let rest = insert_open a bs in if opens_before b a then b ∷ rest else a ∷ b ∷ bs

unfoldable pub sort_open : List Dispute → List Dispute
unfolding insert_open
sort_open [] = []
sort_open (d ∷ ds) = insert_open d (sort_open ds)

abbrev pub is_open : ℤ → Dispute → Bool
is_open now dispute = is_status dispute.status initiated && leb_ℤ dispute.opened_at now

unfoldable pub summarise : Floats → DisputeData → Window → ℤ → Disputes
unfolding contains count_statuses outcome_shares sort_open percentile ratio count_if select collect
summarise floats data_set window now =
    let opened = select (λ dispute. contains window dispute.opened_at) data_set.disputes in
    let resolved = select (resolved_in window) data_set.disputes in
    let resolutions = collect resolution resolved in
    record {
      opened = length opened;
      by_status = count_statuses opened (0 ∷ 0 ∷ 0 ∷ 0 ∷ 0 ∷ 0 ∷ []);
      buyer_share =
          ratio floats (count_if (λ dispute. is_buyer dispute.initiator) opened)
            (count_if (λ dispute. is_some dispute.initiator) opened);
      rate =
          ratio floats (length opened)
            (count_if (λ order. contains window order.left_pending_at) data_set.taken);
      resolved = length resolved;
      outcome = outcome_shares floats resolved;
      resolution_p50 = percentile cmp_ℤ resolutions half_f64;
      resolution_p90 = percentile cmp_ℤ resolutions nine_tenths_f64;
      still_open =
          map
            (λ dispute. record {
              dispute_id = dispute.dispute_id;
              age = wrap_i64 (now -ℤ dispute.opened_at);
            })
            (sort_open (select (is_open now) data_set.disputes));
    }
