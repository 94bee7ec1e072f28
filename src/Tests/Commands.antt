-- ===== src/Tests/Commands.antt =====
-- Columns of lists, windows, instances and filters, at concrete texts and seconds.
use bestiario.Prelude.{
  ◌≡◌, refl, false, none, some, List, [], ◌∷◌, inl, inr, arith, ◌&&◌, ◌||◌, ◌↔◌,
}
use bestiario.Prelude.Int.{pos, ◌≤ℤ◌, ◌<ℤ◌, ◌+ℤ◌, ◌-ℤ◌, saturating_sub}
use bestiario.Prelude.Lists.{In, In-collect}
use bestiario.Prelude.Result.{ok}
use bestiario.Db.Csv.{join, split}
use bestiario.Db.Csv.RoundTrip.{split-join}
use bestiario.Ingest.Policy.{untagged}
use bestiario.Commands.Range.{
  Range, resolve, contains, previous, max_window_secs, resolve_instance, KnownInstance,
}
use bestiario.Commands.Range.Bounds.{resolve-bounds, resolve-exact, previous-contains}
use bestiario.Commands.Range.Instance.{Describes, resolve_instance-Describes}
use bestiario.Commands.Filters.{Filter, narrowed, per_kind, for_kind, indexed_kinds}
use bestiario.Commands.Filters.Window.{admits, narrowed-admits}
use bestiario.Commands.Filters.Authors.{Asks, per_kind-Asks}
use bestiario.Tests.Fixtures.{sdk}

split-join_example : split (join ("cash" ∷ " a, \"b\"" ∷ [])) ≡ "cash" ∷ " a, \"b\"" ∷ []
split-join_example = split-join ("cash" ∷ " a, \"b\"" ∷ []) (λ h. cc, (λ h. cc, tt))

abbrev day : Range
day = record { from = pos 1700000000; until = pos 1700086400 }

day-resolves : resolve (some (pos 1700000000)) (some (pos 1700086400)) (pos 1800000000) ≡ ok day
unfolding resolve saturating_sub ◌-ℤ◌
day-resolves = refl

resolve-bounds_example : (day.from <ℤ day.until) × (day.until ≤ℤ day.from +ℤ max_window_secs)
resolve-bounds_example =
    resolve-bounds (some (pos 1700000000)) (some (pos 1700086400)) (pos 1800000000) day day-resolves

resolve-exact_example :
    (resolve (some (pos 5)) (some (pos 5)) (pos 9) ≡ ok (record { from = pos 5; until = pos 5 }))
    ↔ ((pos 5 <ℤ pos 5) × (pos 5 ≤ℤ pos 5 +ℤ max_window_secs))
resolve-exact_example = resolve-exact (pos 5) (pos 5) (pos 9)

previous-contains_example :
    ((previous day).until -ℤ (previous day).from ≡ day.until -ℤ day.from)
    × ((contains day (pos 1699990000) || contains (previous day) (pos 1699990000))
        ≡ contains (record { from = (previous day).from; until = day.until }) (pos 1699990000))
    × ((contains day (pos 1699990000) && contains (previous day) (pos 1699990000)) ≡ false)
unfolding ◌-ℤ◌
previous-contains_example =
    previous-contains day (pos 1699990000) (omega arith) (omega arith, omega arith)
      (omega arith, omega arith)

abbrev known : List KnownInstance
known = ("ab12", some "node") ∷ ("ab34", none) ∷ []

resolve_instance-Describes_example :
    Describes sdk (some " ab ") known (resolve_instance sdk (some " ab ") known)
resolve_instance-Describes_example = resolve_instance-Describes sdk (some " ab ") known

narrowed-admits_example :
    admits (narrowed 38383 [] (some day) none) 1700000000 ≡ contains day (pos 1700000000)
narrowed-admits_example =
    narrowed-admits day 38383 [] none 1700000000 (omega arith) (omega arith)
      (omega arith, omega arith)

abbrev rates_filter : Filter
rates_filter = narrowed 30078 ("ab" ∷ []) (some day) none

per_kind-Asks_example : In 30078 indexed_kinds × Asks rates_filter [] ("ab" ∷ [])
unfolding per_kind for_kind untagged
per_kind-Asks_example = per_kind-Asks [] ("ab" ∷ []) (some day) none rates_filter (
    In-collect (λ kind. for_kind kind [] ("ab" ∷ []) (some day) none) rates_filter 30078
      indexed_kinds (inr (inr (inr (inr (inl refl))))) refl)
