-- ===== src/Stats/Window/Tiling.antt =====
-- The buckets of a window against the window (crates/stats/src/window.rs).
use bestiario.Prelude.{
  ℕ, zero, suc, ◌≤◌, ◌<◌, true, false, Option, none, some, String, [], ◌∷◌, ◌≡◌, refl, sym, ap,
  arith, subst, Bool-cases, inl, inr, and_then,
}
use bestiario.Prelude.Int.{ℤ, pos_part, ◌-ℤ◌, ◌<ℤ◌, ◌≤ℤ◌, ltb_ℤ, min_ℤ, max_ℤ, -ℤ_parts, ltb_ℤ→lt}
use bestiario.Prelude.Lists.{All}
use bestiario.Stats.Window.{
  Window, DateTime, Chrono, Period, next, clipped, Buckets, push, walk_from, walk, opening,
  format_of,
}

-- Buckets that follow on each other from one second to another, none of them empty.
abbrev pub IsTiling : ℤ → Buckets → ℤ → Type 0
IsTiling from [] until = from ≡ until
IsTiling from ((key, bucket) ∷ buckets) until =
    (bucket.from ≡ from) × (bucket.from <ℤ bucket.until) × IsTiling bucket.until buckets until

-- Where the buckets from a cursor on begin.
abbrev start : Window → ℤ → ℤ
start window at = min_ℤ (max_ℤ at window.from) window.until

clipped-start :
    (a u c f : ℤ)
    → a <ℤ u
    → c <ℤ u
    → c <ℤ f
    → ltb_ℤ (max_ℤ c a) (min_ℤ f u) ≡ true
    → (max_ℤ c a ≡ min_ℤ (max_ℤ c a) u) × (min_ℤ f u ≡ min_ℤ (max_ℤ f a) u)
clipped-start a u c f h k l t = (ground arith, ground arith)

skipped-start :
    (a u c f : ℤ)
    → a <ℤ u
    → c <ℤ u
    → c <ℤ f
    → ltb_ℤ (max_ℤ c a) (min_ℤ f u) ≡ false
    → min_ℤ (max_ℤ f a) u ≡ min_ℤ (max_ℤ c a) u
skipped-start a u c f h k l t = ground arith

room-left :
    (a u c f : ℤ) (left : ℕ)
    → ltb_ℤ (max_ℤ c a) (min_ℤ f u) ≡ true
    → pos_part (u -ℤ max_ℤ c a) ≤ suc left
    → pos_part (u -ℤ max_ℤ f a) ≤ left
unfolding ◌-ℤ◌
room-left a u c f left t h = ground arith

room-same :
    (a u c f : ℤ) (room : ℕ)
    → a <ℤ u
    → c <ℤ u
    → c <ℤ f
    → ltb_ℤ (max_ℤ c a) (min_ℤ f u) ≡ false
    → pos_part (u -ℤ max_ℤ c a) ≤ room
    → pos_part (u -ℤ max_ℤ f a) ≤ room
unfolding ◌-ℤ◌
room-same a u c f room h k l t enough = ground arith

no-room : (a u c f : ℤ) → ltb_ℤ (max_ℤ c a) (min_ℤ f u) ≡ true → pos_part (u -ℤ max_ℤ c a) ≤ 0 → ⊥
unfolding ◌-ℤ◌
no-room a u c f t enough = ground arith

-- What a walk gives from a second on.
abbrev pub Tiles : (String × Window → Type 0) → ℤ → ℤ → Option (Option Buckets) → Type 0
Tiles P from until result =
    (buckets : Buckets) × (result ≡ some (some buckets))
    × IsTiling from buckets until
    × All P buckets

-- A bucket is what a window has of the time from a moment at which one opens to its end, under the text
-- of that moment.
abbrev pub IsBucket :
    Chrono → Window → Period → (DateTime → Type 0) → (DateTime → ℤ) → String × Window → Type 0
IsBucket chrono window period Opens ends (key, bucket) =
    (at : DateTime) × Opens at
    × (key ≡ chrono.format (format_of period) at)
    × (bucket.from ≡ max_ℤ at.timestamp window.from)
    × (bucket.until ≡ min_ℤ (ends at) window.until)

module _ (chrono : Chrono) (window : Window) (period : Period) (Opens : DateTime → Type 0)
    (ends : DateTime → ℤ) (filled : window.from <ℤ window.until)
    (steps : (at : DateTime)
      → Opens at
      → at.timestamp <ℤ window.until
      → (following : DateTime) × (next chrono period at ≡ some following)
        × Opens following
        × (at.timestamp <ℤ following.timestamp)
        × (following.timestamp ≡ ends at)) where
  abbrev Clipped : String × Window → Type 0
  Clipped = IsBucket chrono window period Opens ends

  push-Tiles :
      (key : String) (cursor following : DateTime) (room : ℕ) (rest : ℕ → Option (Option Buckets))
      → Clipped (key, clipped window cursor following)
      → cursor.timestamp <ℤ window.until
      → cursor.timestamp <ℤ following.timestamp
      → pos_part (window.until -ℤ max_ℤ cursor.timestamp window.from) ≤ room
      → ((left : ℕ)
          → pos_part (window.until -ℤ max_ℤ following.timestamp window.from) ≤ left
          → Tiles Clipped (start window following.timestamp) window.until (rest left))
      → Tiles Clipped
          (start window cursor.timestamp)
          window.until
          (push key (clipped window cursor following) room rest)
  unfolding clipped
  push-Tiles key cursor following room rest is_bucket before forward enough ih =
      let c : ℤ = cursor.timestamp in
      let f : ℤ = following.timestamp in
      elim (Bool-cases (ltb_ℤ (max_ℤ c window.from) (min_ℤ f window.until))) [
        | inl e ↦ rw (push, e) (inside room enough e)
        | inr e ↦
            rw (push, e)
              (subst (λ a. Tiles Clipped a window.until (rest room))
                (skipped-start window.from window.until c f filled before forward e)
                (ih room
                  (room-same window.from window.until c f room filled before forward e enough)))
      ]
    where
      inside :
          (room : ℕ)
          → pos_part (window.until -ℤ max_ℤ cursor.timestamp window.from) ≤ room
          → ltb_ℤ (max_ℤ cursor.timestamp window.from) (min_ℤ following.timestamp window.until)
            ≡ true
          → Tiles Clipped (start window cursor.timestamp) window.until (elim room [
            | zero ↦ some none
            | suc left ↦ and_then (rest left) (λ result. some (
                and_then result
                  (λ buckets. some ((key, clipped window cursor following) ∷ buckets))))
          ])
      inside zero enough e =
          absurd (no-room window.from window.until cursor.timestamp following.timestamp e enough)
      inside (suc left) enough e =
          let (opens, closes) =
            clipped-start window.from window.until cursor.timestamp following.timestamp filled
              before forward e in
          let (buckets, q, tiling, all) = ih left (
            room-left window.from window.until cursor.timestamp following.timestamp left e
              enough) in
          (
            (key, clipped window cursor following) ∷ buckets,
            rw q refl,
            (
              opens,
              ltb_ℤ→lt (max_ℤ cursor.timestamp window.from) (min_ℤ following.timestamp window.until)
                  e,
              subst (λ a. IsTiling a buckets window.until) (sym closes) tiling,
            ),
            (is_bucket, all),
          )

  pub walk_from-Tiles :
      (fuel room : ℕ) (cursor : DateTime)
      → Opens cursor
      → pos_part (window.until -ℤ cursor.timestamp) < fuel
      → pos_part (window.until -ℤ max_ℤ cursor.timestamp window.from) ≤ room
      → Tiles Clipped
          (start window cursor.timestamp)
          window.until
          (walk_from chrono window period fuel room cursor)
  unfolding walk_from
  walk_from-Tiles zero room cursor named short enough = absurd (omega arith)
  walk_from-Tiles (suc fuel) room cursor named short enough =
      elim (Bool-cases (ltb_ℤ cursor.timestamp window.until)) [
        | inl e ↦
            let (following, q, known, forward, end) =
              steps cursor named (ltb_ℤ→lt cursor.timestamp window.until e) in
            rw (walk_from, e, q)
              (push-Tiles (chrono.format (format_of period) cursor) cursor following room
                (λ left. walk_from chrono window period fuel left following)
                (cursor, named, refl, refl, ap (λ t. min_ℤ t window.until) end)
                (ltb_ℤ→lt cursor.timestamp window.until e) forward enough
                (λ left few.
                  walk_from-Tiles fuel left following known
                    (shorter window.until cursor.timestamp following.timestamp fuel e forward short)
                    few))
        | inr e ↦
            rw (walk_from, e)
              ([], refl, ended window.from window.until cursor.timestamp filled e, tt)
      ]
    where
      shorter :
          (u c f : ℤ) (fuel : ℕ)
          → ltb_ℤ c u ≡ true
          → c <ℤ f
          → pos_part (u -ℤ c) < suc fuel
          → pos_part (u -ℤ f) < fuel
      shorter u c f fuel e forward short = ground (arith, -ℤ_parts u c, -ℤ_parts u f)

      ended : (a u c : ℤ) → a <ℤ u → ltb_ℤ c u ≡ false → min_ℤ (max_ℤ c a) u ≡ u
      ended a u c h e = ground arith

  pub opened-Tiles :
      (fuel limit : ℕ) (cursor : DateTime)
      → opening chrono window period ≡ some cursor
      → Opens cursor
      → cursor.timestamp ≤ℤ window.from
      → pos_part (window.until -ℤ cursor.timestamp) < fuel
      → pos_part (window.until -ℤ window.from) ≤ limit
      → Tiles Clipped window.from window.until (walk chrono window period fuel limit)
  unfolding walk
  opened-Tiles fuel limit cursor opens named low short enough =
      let begin : max_ℤ cursor.timestamp window.from ≡ window.from = ground arith in
      let first : start window cursor.timestamp ≡ window.from = ground arith in
      rw (walk, opens)
        (subst
          (λ a. Tiles Clipped a window.until (walk_from chrono window period fuel limit cursor))
          first
          (walk_from-Tiles fuel limit cursor named short
            (subst (λ a. pos_part (window.until -ℤ a) ≤ limit) (sym begin) enough)))
