-- ===== src/Stats/Ranking/Entries.antt =====
-- What a ranking holds, and in which order (crates/stats/src/market/ranking.rs).
use bestiario.Prelude.{
  Bool, Bool-cases, true, false, inl, inr, String, List, [], ◌∷◌, ◌≡◌, ◌↔◌, arith, ◌||◌, ◌&&◌,
}
use bestiario.Prelude.Int.{ℤ, pos, negsuc, ltb_ℤ, eqb_ℤ}
use bestiario.Prelude.Float.{Floats}
use bestiario.Prelude.Lists.{In, select, select-In, In-select}
use bestiario.Prelude.Map.{Map}
use bestiario.Stats.Ranking.{outranks, place, sort_entries, weighs, ranked}

-- The entries with the new one, in some order.
place-In :
    (a entry : String × ℤ) (entries : List (String × ℤ))
    → In a (place entry entries) ↔ In a (entry ∷ entries)
unfolding place
place-In a entry [] = (λ h. h, λ h. h)
place-In a entry (other ∷ entries) =
    let ih = place-In a entry entries in
    elim (Bool-cases (outranks other entry)) [
      | inl e ↦ rw e (further ih.0, back ih.1)
      | inr e ↦ rw e (λ h. h, λ h. h)
    ]
  where
    further :
        (In a (place entry entries) → In a (entry ∷ entries))
        → In a (other ∷ place entry entries)
        → In a (entry ∷ other ∷ entries)
    further there (inl q) = inr (inl q)
    further there (inr h) = behind (there h)
      where
        behind : In a (entry ∷ entries) → In a (entry ∷ other ∷ entries)
        behind (inl q) = inl q
        behind (inr i) = inr (inr i)

    back :
        (In a (entry ∷ entries) → In a (place entry entries))
        → In a (entry ∷ other ∷ entries)
        → In a (other ∷ place entry entries)
    back here (inl q) = inr (here (inl q))
    back here (inr (inl q)) = inl q
    back here (inr (inr i)) = inr (here (inr i))

behind :
    (a entry : String × ℤ) (xs ys : List (String × ℤ))
    → (In a xs → In a ys)
    → In a (entry ∷ xs)
    → In a (entry ∷ ys)
behind a entry xs ys f (inl q) = inl q
behind a entry xs ys f (inr i) = inr (f i)

sort_entries-In :
    (a : String × ℤ) (entries : List (String × ℤ)) → In a (sort_entries entries) ↔ In a entries
unfolding sort_entries
sort_entries-In a [] = (λ h. h, λ h. h)
sort_entries-In a (entry ∷ entries) =
    let (there, back) = place-In a entry (sort_entries entries) in
    let (down, up) = sort_entries-In a entries in
    (
      λ h. behind a entry (sort_entries entries) entries down (there h),
      λ h. back (behind a entry entries (sort_entries entries) up h),
    )

heavier : (v w : ℤ) (first : Bool) → (ltb_ℤ w v || eqb_ℤ w v && first) ≡ true → ltb_ℤ v w ≡ false
heavier (pos v) (pos w) first h = ground arith
heavier (pos v) (negsuc w) first h = ground arith
heavier (negsuc v) (pos w) first h = ground arith
heavier (negsuc v) (negsuc w) first h = ground arith

lighter : (v w : ℤ) (first : Bool) → (ltb_ℤ w v || eqb_ℤ w v && first) ≡ false → ltb_ℤ w v ≡ false
lighter v w first h = ground arith

-- The first of the entries, if there is one, is no heavier.
abbrev pub Tops : String × ℤ → List (String × ℤ) → Type 0
Tops entry [] = Unit
Tops entry (next ∷ entries) = ltb_ℤ entry.1 next.1 ≡ false

-- No entry is heavier than the one before it.
unfoldable pub IsRanked : List (String × ℤ) → Type 0
IsRanked [] = Unit
IsRanked (entry ∷ entries) = Tops entry entries × IsRanked entries

place-Tops :
    (above entry : String × ℤ) (entries : List (String × ℤ))
    → ltb_ℤ above.1 entry.1 ≡ false
    → Tops above entries
    → Tops above (place entry entries)
unfolding place
place-Tops above entry [] low h = low
place-Tops above entry (other ∷ entries) low h = elim (Bool-cases (outranks other entry)) [
  | inl e ↦ rw e h
  | inr e ↦ rw e low
]

place-IsRanked :
    (entry : String × ℤ) (entries : List (String × ℤ))
    → IsRanked entries
    → IsRanked (place entry entries)
unfolding place IsRanked
place-IsRanked entry [] h = (tt, tt)
place-IsRanked entry (other ∷ entries) (low, h) = elim (Bool-cases (outranks other entry)) [
  | inl e ↦ rw e (
    place-Tops other entry entries (heavier other.1 entry.1 _ e) low,
    place-IsRanked entry entries h,
  )
  | inr e ↦ rw e (lighter other.1 entry.1 _ e, (low, h))
]

sort_entries-IsRanked : (entries : List (String × ℤ)) → IsRanked (sort_entries entries)
unfolding sort_entries IsRanked
sort_entries-IsRanked [] = tt
sort_entries-IsRanked (entry ∷ entries) =
    place-IsRanked entry (sort_entries entries) (sort_entries-IsRanked entries)

ranked-sorted :
    (floats : Floats) (weights : Map ℤ)
    → (ranked floats weights).entries ≡ sort_entries (select weighs weights)
unfolding ranked
ranked-sorted floats weights = ground arith

-- A ranking holds exactly the keys whose weight is above 0, with their weights, and no entry of it
-- is heavier than the one before.
pub ranked-entries :
    (floats : Floats) (weights : Map ℤ) (entry : String × ℤ)
    → (In entry (ranked floats weights).entries
        ↔ (In entry weights × (ltb_ℤ (pos 0) entry.1 ≡ true)))
      × IsRanked (ranked floats weights).entries
ranked-entries floats weights entry =
    let (there, back) = sort_entries-In entry (select weighs weights) in
    rw (ranked-sorted floats weights) (
      (
        λ h. select-In weighs entry weights (there h),
        λ (i, heavy). back (In-select weighs entry weights i heavy),
      ),
      sort_entries-IsRanked (select weighs weights),
    )
