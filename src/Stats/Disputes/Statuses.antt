-- ===== src/Stats/Disputes/Statuses.antt =====
-- The disputes by status against those opened (crates/stats/src/disputes.rs).
use bestiario.Prelude.{ℕ, zero, suc, ◌+◌, ◌<◌, List, [], ◌∷◌, ◌≡◌, refl, arith, map, if◌then◌else◌}
use bestiario.Prelude.Int.{ℤ}
use bestiario.Prelude.Float.{Floats}
use bestiario.Prelude.Lists.{length, select}
use bestiario.Stats.Activity.{count_if}
use bestiario.Stats.Window.{Window, contains}
use bestiario.Stats.Disputes.{
  Status, all_statuses, is_status, initiated, in_progress, seller_refunded, settled, released,
  cooperatively_canceled, status_index, Dispute, DisputeData, bump, count_statuses, summarise,
}

abbrev pub sum : List ℕ → ℕ
sum [] = 0
sum (c ∷ cs) = c + sum cs

sum-bump : (n : ℕ) (cs : List ℕ) → n < length cs → sum (bump n cs) ≡ suc (sum cs)
unfolding bump
sum-bump n [] h = absurd (omega arith)
sum-bump zero (c ∷ cs) h = omega arith
sum-bump (suc n) (c ∷ cs) h = let rest = sum-bump n cs (omega arith) in omega (arith, rest)

length-bump : (n : ℕ) (cs : List ℕ) → length (bump n cs) ≡ length cs
unfolding bump
length-bump n [] = refl
length-bump zero (c ∷ cs) = refl
length-bump (suc n) (c ∷ cs) = let rest = length-bump n cs in omega (arith, rest)

status_index-lt : (status : Status) → status_index status < 6
status_index-lt initiated = omega arith
status_index-lt in_progress = omega arith
status_index-lt seller_refunded = omega arith
status_index-lt settled = omega arith
status_index-lt released = omega arith
status_index-lt cooperatively_canceled = omega arith

sum-count_statuses :
    (disputes : List Dispute) (counts : List ℕ)
    → length counts ≡ 6
    → sum (count_statuses disputes counts) ≡ sum counts + length disputes
unfolding count_statuses
sum-count_statuses [] counts h = omega arith
sum-count_statuses (dispute ∷ disputes) counts h =
    let at = status_index dispute.status in
    let in_range = status_index-lt dispute.status in
    let long = length-bump at counts in
    let one = sum-bump at counts (omega arith) in
    let rest = sum-count_statuses disputes (bump at counts) (omega (arith, long, h)) in
    omega (arith, rest, one)

-- The disputes of a window counted by their statuses add up to those opened.
-- The disputes of one status.
abbrev pub of_status : List Dispute → Status → ℕ
of_status disputes status = count_if (λ dispute. is_status status dispute.status) disputes

-- Each count with the disputes of its status, in the order of the reports.
abbrev counted : (Status → ℕ) → ℕ → ℕ → ℕ → ℕ → ℕ → ℕ → List ℕ
counted of a b c d e f =
    (a + of initiated)
    ∷ (b + of in_progress)
    ∷ (c + of seller_refunded)
    ∷ (d + of settled)
    ∷ (e + of released)
    ∷ (f + of cooperatively_canceled)
    ∷ []

counted-bump :
    (status : Status) (disputes : List Dispute)
    → ((a b c d e f : ℕ)
        → count_statuses disputes (a ∷ b ∷ c ∷ d ∷ e ∷ f ∷ [])
          ≡ counted (of_status disputes) a b c d e f)
    → (a b c d e f : ℕ)
    → count_statuses disputes (bump (status_index status) (a ∷ b ∷ c ∷ d ∷ e ∷ f ∷ []))
      ≡ counted
          (λ s. if is_status s status then suc (of_status disputes s) else of_status disputes s)
          a
          b
          c
          d
          e
          f
unfolding bump
counted-bump initiated disputes rest a b c d e f =
    let counts = rest (suc a) b c d e f in ground (arith, counts)
counted-bump in_progress disputes rest a b c d e f =
    let counts = rest a (suc b) c d e f in ground (arith, counts)
counted-bump seller_refunded disputes rest a b c d e f =
    let counts = rest a b (suc c) d e f in ground (arith, counts)
counted-bump settled disputes rest a b c d e f =
    let counts = rest a b c (suc d) e f in ground (arith, counts)
counted-bump released disputes rest a b c d e f =
    let counts = rest a b c d (suc e) f in ground (arith, counts)
counted-bump cooperatively_canceled disputes rest a b c d e f =
    let counts = rest a b c d e (suc f) in ground (arith, counts)

count_statuses-counted :
    (disputes : List Dispute) (a b c d e f : ℕ)
    → count_statuses disputes (a ∷ b ∷ c ∷ d ∷ e ∷ f ∷ [])
      ≡ counted (of_status disputes) a b c d e f
unfolding count_statuses count_if
count_statuses-counted [] a b c d e f = ground arith
count_statuses-counted (dispute ∷ disputes) a b c d e f =
    counted-bump dispute.status disputes (count_statuses-counted disputes) a b c d e f

-- The counts by status are those of the disputes opened in the window, one for each status in the
-- order of the reports, and they add up to the number opened.
pub summarise-statuses :
    (floats : Floats) (data_set : DisputeData) (window : Window) (now : ℤ)
    → ((summarise floats data_set window now).by_status
        ≡ map
            (of_status (select (λ dispute. contains window dispute.opened_at) data_set.disputes))
            all_statuses)
      × (sum (summarise floats data_set window now).by_status
          ≡ (summarise floats data_set window now).opened)
unfolding summarise
summarise-statuses floats data_set window now =
    let opened = select (λ dispute. contains window dispute.opened_at) data_set.disputes in
    let counts = count_statuses-counted opened 0 0 0 0 0 0 in
    let total = sum-count_statuses opened (0 ∷ 0 ∷ 0 ∷ 0 ∷ 0 ∷ 0 ∷ []) refl in
    (ground (arith, counts), omega (arith, total))
