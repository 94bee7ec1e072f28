-- ===== src/Commands/Range/Bounds.antt =====
-- What a resolved window is like (src/commands/range.rs).
use bestiario.Prelude.{
  ◌≡◌, false, Option, some, ◌⊎◌, ◌↔◌, ◌||◌, ◌&&◌, refl, arith, inl, inr, Bool-cases, subst,
}
use bestiario.Prelude.Int.{
  ℤ, ◌+ℤ◌, ◌-ℤ◌, ◌≤ℤ◌, ◌<ℤ◌, IsI64, wrap_i64, saturating_sub, int_laws, wrap_i64-fits, ltb_ℤ, leb_ℤ,
  eq_of_parts,
}
use bestiario.Prelude.Result.{ok, ok-inj, err}
use bestiario.Commands.Range.{
  RangeError, empty, too_wide, Range, resolve, checked, contains, previous, max_window_secs,
  value_or, default_window_secs,
}

abbrev IsBounded : ℤ → ℤ → Type 0
IsBounded from until = (from <ℤ until) × (until ≤ℤ from +ℤ max_window_secs)

narrow :
    (from until : ℤ)
    → from <ℤ until
    → ltb_ℤ max_window_secs (saturating_sub until from) ≡ false
    → until ≤ℤ from +ℤ max_window_secs
unfolding saturating_sub ◌-ℤ◌ ◌+ℤ◌
narrow from until below h = ground arith

not-wide :
    (from until : ℤ)
    → from <ℤ until
    → until ≤ℤ from +ℤ max_window_secs
    → ltb_ℤ max_window_secs (saturating_sub until from) ≡ false
unfolding saturating_sub ◌-ℤ◌ ◌+ℤ◌
not-wide from until below h = ground arith

checked-bounds :
    (from until : ℤ) (range : Range)
    → checked from until ≡ ok range
    → IsBounded range.from range.until
unfolding checked
checked-bounds from until range h = elim (Bool-cases (leb_ℤ until from)) [
  | inl e ↦ absurd (cc (rw e at h))
  | inr e ↦ elim (Bool-cases (ltb_ℤ max_window_secs (saturating_sub until from))) [
    | inl w ↦ absurd (cc (rw (e, w) at h))
    | inr w ↦
        let below : from <ℤ until = ground arith in
        subst (λ r. IsBounded r.from r.until) (ok-inj _ range (rw (e, w) at h))
          (below, narrow from until below w)
  ]
]

-- A window that resolves is not empty and spans at most 100 years, whichever of its bounds were
-- given.
pub resolve-bounds :
    (from until : Option ℤ) (now : ℤ) (range : Range)
    → resolve from until now ≡ ok range
    → (range.from <ℤ range.until) × (range.until ≤ℤ range.from +ℤ max_window_secs)
unfolding resolve
resolve-bounds from until now range h =
    let end = value_or until now in
    checked-bounds (value_or from (wrap_i64 (end -ℤ default_window_secs))) end range h

-- Two given bounds resolve to the window between them exactly where the first is before the second
-- and they are at most 100 years apart.
pub resolve-exact :
    (from until now : ℤ)
    → (resolve (some from) (some until) now ≡ ok (record { from = from; until = until }))
      ↔ ((from <ℤ until) × (until ≤ℤ from +ℤ max_window_secs))
unfolding resolve
resolve-exact from until now = (
  λ h. resolve-bounds (some from) (some until) now _ h,
  λ (below, h). accepted below (not-wide from until below h),
)
  where
    accepted :
        from <ℤ until
        → ltb_ℤ max_window_secs (saturating_sub until from) ≡ false
        → checked from until ≡ ok (record { from = from; until = until })
    accepted below e = let f : leb_ℤ until from ≡ false = ground arith in rw (checked, f, e) refl

-- The window before a window, where its arithmetic does not overflow: it is as long, the two
-- together contain exactly the seconds from the start of the one to the end of the other, and no
-- second is in both.
pub previous-contains :
    (range : Range) (timestamp : ℤ)
    → range.from <ℤ range.until
    → IsI64 (range.until -ℤ range.from)
    → IsI64 (range.from -ℤ (range.until -ℤ range.from))
    → ((previous range).until -ℤ (previous range).from ≡ range.until -ℤ range.from)
      × ((contains range timestamp || contains (previous range) timestamp)
          ≡ contains (record { from = (previous range).from; until = range.until }) timestamp)
      × ((contains range timestamp && contains (previous range) timestamp) ≡ false)
unfolding previous contains
previous-contains range timestamp below length_fits from_fits =
    let length_exact : wrap_i64 (range.until -ℤ range.from) ≡ range.until -ℤ range.from =
      wrap_i64-fits (range.until -ℤ range.from) length_fits in
    let from_exact = wrap_i64-fits (range.from -ℤ (range.until -ℤ range.from)) from_fits in
    rw (length_exact, from_exact)
      (
        eq_of_parts _ _ (omega int_laws),
        split_at (range.from -ℤ (range.until -ℤ range.from)) range.from range.until timestamp
            (omega int_laws) (omega int_laws),
        apart (range.from -ℤ (range.until -ℤ range.from)) range.from range.until timestamp,
      )
  where
    split_at :
        (a b c t : ℤ)
        → a ≤ℤ b
        → b ≤ℤ c
        → (leb_ℤ b t && ltb_ℤ t c || leb_ℤ a t && ltb_ℤ t b) ≡ (leb_ℤ a t && ltb_ℤ t c)
    split_at a b c t h k = ground arith

    apart : (a b c t : ℤ) → ((leb_ℤ b t && ltb_ℤ t c) && (leb_ℤ a t && ltb_ℤ t b)) ≡ false
    apart a b c t = ground arith

-- Two bounds resolve to themselves or to an error.
pub resolve-cases :
    (from until now : ℤ)
    → ((error : RangeError) × (resolve (some from) (some until) now ≡ err error))
      ⊎ (resolve (some from) (some until) now ≡ ok (record { from = from; until = until }))
unfolding resolve
resolve-cases from until now = elim (Bool-cases (leb_ℤ until from)) [
  | inl e ↦ inl (empty from until, rw (checked, e) refl)
  | inr e ↦ elim (Bool-cases (ltb_ℤ max_window_secs (saturating_sub until from))) [
    | inl w ↦ inl (too_wide from until, rw (checked, e, w) refl)
    | inr w ↦ inr (rw (checked, e, w) refl)
  ]
]
