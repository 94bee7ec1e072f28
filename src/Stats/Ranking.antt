-- ===== src/Stats/Ranking.antt =====
-- Keys by their weights, heaviest first (crates/stats/src/market/ranking.rs).
pub mod Entries
use bestiario.Prelude.{
  Bool, true, false, ◌||◌, ◌&&◌, Option, none, some, String, List, [], ◌∷◌, map, if◌then◌else◌,
}
use bestiario.Prelude.Int.{ℤ, pos, ◌+ℤ◌, ltb_ℤ, eqb_ℤ}
use bestiario.Prelude.Float.{F64, Floats, zero_f64}
use bestiario.Prelude.Lists.{select}
use bestiario.Prelude.Map.{Map, get, insert}
use bestiario.Stats.Activity.{Order}
use Prim.Native.Nat.{Ordering}
use Prim.Native.String.{compare}

pub record Ranking : Type 0 where
  pub entries : List (String × ℤ)
  pub top3_share : F64
  pub hhi : F64

-- Whether an entry comes before another: it is heavier, or as heavy and its key comes first.
abbrev pub outranks : String × ℤ → String × ℤ → Bool
outranks (k, v) (j, w) =
    ltb_ℤ w v || eqb_ℤ w v && (elim (compare k j) [ Ordering.lt ↦ true | _ ↦ false ])

-- `sort_by`, which keeps the order of equals.
unfoldable pub place : String × ℤ → List (String × ℤ) → List (String × ℤ)
place entry [] = entry ∷ []
place entry (other ∷ entries) =
    let rest = place entry entries in
    if outranks other entry then other ∷ rest else entry ∷ other ∷ entries

unfoldable pub sort_entries : List (String × ℤ) → List (String × ℤ)
unfolding place
sort_entries [] = []
sort_entries (entry ∷ entries) = place entry (sort_entries entries)

abbrev pub weighs : String × ℤ → Bool
weighs (key, weight) = ltb_ℤ (pos 0) weight

unfoldable pub total_of : List (String × ℤ) → ℤ
total_of [] = pos 0
total_of ((key, weight) ∷ entries) = weight +ℤ total_of entries

abbrev pub take_3 : List (String × ℤ) → List (String × ℤ)
take_3 (a ∷ b ∷ c ∷ entries) = a ∷ b ∷ c ∷ []
take_3 entries = entries

abbrev pub share : Floats → ℤ → String × ℤ → F64
share floats total (key, weight) =
    floats.divide (floats.of_integer weight) (floats.of_integer total)

-- `Ranking::new`
unfoldable pub ranked : Floats → Map ℤ → Ranking
unfolding sort_entries total_of select
ranked floats weights =
    let entries = sort_entries (select weighs weights) in
    let total = total_of entries in
    if ltb_ℤ (pos 0) total
    then record {
      entries = entries;
      top3_share = floats.sum (map (share floats total) (take_3 entries));
      hhi = floats.sum (map (λ entry. floats.square (share floats total entry)) entries);
    }
    else record { entries = entries; top3_share = zero_f64; hhi = zero_f64 }

abbrev weight_in : Option ℤ → ℤ
weight_in none = pos 0
weight_in (some weight) = weight

-- `*weights.entry(key).or_default() += …`, for each key of an order.
unfoldable pub credit : ℤ → List String → Map ℤ → Map ℤ
unfolding get insert
credit weight [] weights = weights
credit weight (key ∷ keys) weights =
    credit weight keys (insert key (weight_in (get key weights) +ℤ weight) weights)

unfoldable pub weights_of : (Order → List String) → (Order → ℤ) → List Order → Map ℤ → Map ℤ
unfolding credit
weights_of keys weight [] weights = weights
weights_of keys weight (order ∷ orders) weights =
    weights_of keys weight orders (credit (weight order) (keys order) weights)

unfoldable pub tally : Floats → List Order → (Order → List String) → (Order → ℤ) → Ranking
unfolding weights_of ranked
tally floats orders keys weight = ranked floats (weights_of keys weight orders [])
