-- ===== src/Rebuild/Sorted.antt =====
-- The order in which `events::all` reads the archive (src/db/repo/events.rs).
use bestiario.Prelude.{inl, inr, List, [], ◌∷◌, Bool-cases}
use bestiario.Prelude.Lists.{In, SameRows}
use bestiario.Db.Events.{EventRecord}
use bestiario.Rebuild.{all, archived_at, placed_record}

-- `ORDER BY` keeps the rows.
In-placed :
    (r : EventRecord) (rows : List EventRecord) (a : EventRecord)
    → In a (r ∷ rows)
    → In a (placed_record r rows)
unfolding placed_record
In-placed r [] a i = i
In-placed r (s ∷ rows) a i = elim (Bool-cases (archived_at s r)) [
  | inl t ↦ rw t (further (λ j. In-placed r rows a j) i)
  | inr t ↦ rw t i
]
  where
    further :
        (In a (r ∷ rows) → In a (placed_record r rows))
        → In a (r ∷ s ∷ rows)
        → In a (s ∷ placed_record r rows)
    further ih (inl e) = inr (ih (inl e))
    further ih (inr (inl e)) = inl e
    further ih (inr (inr j)) = inr (ih (inr j))

placed-In :
    (r : EventRecord) (rows : List EventRecord) (a : EventRecord)
    → In a (placed_record r rows)
    → In a (r ∷ rows)
unfolding placed_record
placed-In r [] a i = i
placed-In r (s ∷ rows) a i = elim (Bool-cases (archived_at s r)) [
  | inl t ↦ further (λ j. placed-In r rows a j) (rw t at i)
  | inr t ↦ rw t at i
]
  where
    moved : In a (r ∷ rows) → In a (r ∷ s ∷ rows)
    moved (inl e) = inl e
    moved (inr j) = inr (inr j)

    further :
        (In a (placed_record r rows) → In a (r ∷ rows))
        → In a (s ∷ placed_record r rows)
        → In a (r ∷ s ∷ rows)
    further ih (inl e) = inr (inl e)
    further ih (inr j) = moved (ih j)

placed-SameRows :
    (r : EventRecord) (rows rows' : List EventRecord)
    → SameRows rows rows'
    → SameRows (r ∷ rows) (placed_record r rows')
placed-SameRows r rows rows' same = record {
  to = λ a i. In-placed r rows' a (to a i);
  back = λ a i. back a (placed-In r rows' a i);
}
  where
    to : (a : EventRecord) → In a (r ∷ rows) → In a (r ∷ rows')
    to a (inl e) = inl e
    to a (inr i) = inr (same.to a i)

    back : (a : EventRecord) → In a (r ∷ rows') → In a (r ∷ rows)
    back a (inl e) = inl e
    back a (inr i) = inr (same.back a i)

pub all-SameRows : (rows : List EventRecord) → SameRows rows (all rows)
unfolding all
all-SameRows [] = record { to = λ a i. i; back = λ a i. i }
all-SameRows (r ∷ rows) = placed-SameRows r rows (all rows) (all-SameRows rows)
