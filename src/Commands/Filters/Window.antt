-- ===== src/Commands/Filters/Window.antt =====
-- Which seconds a filter admits (src/nostr/filters.rs).
use bestiario.Prelude.{
  ℕ, ◌≡◌, Bool, true, Option, none, some, arith, ◌&&◌, leb, List, String, refl, if◌then◌else◌,
}
use bestiario.Prelude.Int.{
  ℤ, pos, ◌-ℤ◌, ◌<ℤ◌, ltb_ℤ, i64_max, wrap_i64, wrap_i64-fits, IsI64, pos_part, leb_ℤ, -ℤ_parts,
}
use bestiario.Commands.Range.{Range, contains}
use bestiario.Commands.Filters.{Filter, since_of, until_of, narrowed, window}

-- A bound that is not set admits every second; both bounds are inclusive.
abbrev pub at_least : Option ℕ → ℕ → Bool
at_least none t = true
at_least (some since) t = leb since t

abbrev pub at_most : Option ℕ → ℕ → Bool
at_most none t = true
at_most (some until) t = leb t until

abbrev pub admits : Filter → ℕ → Bool
admits filter t = at_least filter.since t && at_most filter.until t

since-exact : (range : Range) (t : ℕ) → at_least (since_of range) t ≡ (leb_ℤ range.from (pos t))
unfolding since_of
since-exact range t = ground arith

until-exact :
    (range : Range) (t : ℕ)
    → pos 0 <ℤ range.until
    → pos t <ℤ i64_max
    → IsI64 range.until
    → at_most (until_of range) t ≡ ltb_ℤ (pos t) range.until
unfolding until_of
until-exact range t above below fits =
    let exact : wrap_i64 (range.until -ℤ pos 1) ≡ range.until -ℤ pos 1 =
      wrap_i64-fits (range.until -ℤ pos 1) (less range.until above fits) in
    rw exact (upper range.until t above below fits)
  where
    less : (u : ℤ) → pos 0 <ℤ u → IsI64 u → IsI64 (u -ℤ pos 1)
    less u above fits = ground (arith, -ℤ_parts u (pos 1))

    upper :
        (u : ℤ) (t : ℕ)
        → pos 0 <ℤ u
        → pos t <ℤ i64_max
        → IsI64 u
        → at_most (if ltb_ℤ u i64_max then some (pos_part (u -ℤ pos 1)) else none) t
          ≡ ltb_ℤ (pos t) u
    upper u t above below fits = ground (arith, -ℤ_parts u (pos 1))

-- A filter for a range that ends after 0, at an `i64`, admits a second before the last one of an
-- `i64` exactly where the range contains it.
pub narrowed-admits :
    (range : Range) (kind : ℕ) (authors : List String) (limit : Option ℕ) (t : ℕ)
    → pos 0 <ℤ range.until
    → pos t <ℤ i64_max
    → IsI64 range.until
    → admits (narrowed kind authors (some range) limit) t ≡ contains range (pos t)
unfolding narrowed window contains
narrowed-admits range kind authors limit t above below fits =
    rw (since-exact range t, until-exact range t above below fits) refl
