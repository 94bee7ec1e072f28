-- ===== src/Db/Table.antt =====
-- Tables, as SQLite keeps them: rows with an id for primary key, and tables keyed by a text.
use bestiario.Prelude.{
  ℕ, String, ◌≡◌, refl, Bool, false, ◌||◌, Option, none, some, List, [], ◌∷◌, ◌++◌, ◌==◌, ltb,
  ==_iff, Bool-cases, str_eq, if◌then◌else◌, inl, inr, arith, ◌⊎◌,
}
use bestiario.Prelude.Int.{ℤ, ltb_ℤ, eqb_ℤ}
use bestiario.Prelude.Best.{IsWeakOrder}
use bestiario.Prelude.Lists.{
  In, IsKeyed, any, any-In, any-witness, In-append_left, In-append_right, In-append_cases,
}
use bestiario.Prelude.{◌&&◌}

module _ {A : Type 0} (key : A → ℕ) where
  -- `INSERT OR IGNORE`: a row whose key is there already is left out.
  unfoldable pub insert_or_ignore : A → List A → List A
  insert_or_ignore row rows = if any (λ r. key r == key row) rows then rows else rows ++ row ∷ []

  pub In-insert_or_ignore :
      (a row : A) (rows : List A) → In a rows → In a (insert_or_ignore row rows)
  unfolding insert_or_ignore
  In-insert_or_ignore a row rows h = elim (Bool-cases (any (λ r. key r == key row) rows)) [
    | inl old ↦ rw old h
    | inr new ↦ rw new (In-append_left a rows (row ∷ []) h)
  ]

  -- A row found afterwards was there before, or is the row inserted.
  pub insert_or_ignore_cases :
      (a row : A) (rows : List A) → In a (insert_or_ignore row rows) → In a rows ⊎ (a ≡ row)
  unfolding insert_or_ignore
  insert_or_ignore_cases a row rows h = elim (Bool-cases (any (λ r. key r == key row) rows)) [
    | inl old ↦ inl (rw old at h)
    | inr new ↦ split (In-append_cases a rows (row ∷ []) (rw new at h))
  ]
    where
      split : In a rows ⊎ In a (row ∷ []) → In a rows ⊎ (a ≡ row)
      split (inl i) = inl i
      split (inr (inl e)) = inr e
      split (inr (inr i)) = elim i [ ]

  -- Afterwards some row has the key.
  pub insert_or_ignore_has :
      (row : A) (rows : List A) → (a : A) × In a (insert_or_ignore row rows) × (key a ≡ key row)
  unfolding insert_or_ignore
  insert_or_ignore_has row rows = elim (Bool-cases (any (λ r. key r == key row) rows)) [
    | inl old ↦
        let (a, i, t) = any-witness (λ r. key r == key row) rows old in
        rw old (a, i, (==_iff (key a) (key row)).0 t)
    | inr new ↦ rw new (row, In-append_right row rows (row ∷ []) (inl refl), refl)
  ]

  -- A row with a new key is stored.
  pub insert_or_ignore-In :
      (row : A) (rows : List A)
      → any (λ r. key r == key row) rows ≡ false
      → In row (insert_or_ignore row rows)
  unfolding insert_or_ignore
  insert_or_ignore-In row rows new = rw new (In-append_right row rows (row ∷ []) (inl refl))

  pub insert_or_ignore_new :
      (a row : A) (rows : List A)
      → any (λ r. key r == key row) rows ≡ false
      → In a rows
      → key a ≡ key row
      → ⊥
  insert_or_ignore_new a row rows new i e =
      cc (new, any-In (λ r. key r == key row) a rows i ((==_iff (key a) (key row)).1 e))

  pub IsKeyed-insert_or_ignore :
      (row : A) (rows : List A) → IsKeyed key rows → IsKeyed key (insert_or_ignore row rows)
  unfolding insert_or_ignore
  IsKeyed-insert_or_ignore row rows keyed = elim (Bool-cases (any (λ r. key r == key row) rows)) [
    | inl old ↦ rw old keyed
    | inr new ↦ rw new λ a b ia ib e.
        meet new a b e (In-append_cases a rows (row ∷ []) ia) (In-append_cases b rows (row ∷ []) ib)
  ]
    where
      meet :
          any (λ r. key r == key row) rows ≡ false
          → (a b : A) → key a ≡ key b
          → In a rows ⊎ In a (row ∷ [])
          → In b rows ⊎ In b (row ∷ [])
          → a ≡ b
      meet new a b e (inl i) (inl j) = keyed a b i j e
      meet new a b e (inl i) (inr (inl q)) = absurd (insert_or_ignore_new a row rows new i (cc))
      meet new a b e (inl i) (inr (inr j)) = elim j [ ]
      meet new a b e (inr (inl p)) (inl j) = absurd (insert_or_ignore_new b row rows new j (cc))
      meet new a b e (inr (inl p)) (inr (inl q)) = cc
      meet new a b e (inr (inl p)) (inr (inr j)) = elim j [ ]
      meet new a b e (inr (inr i)) _ = elim i [ ]

-- A table keyed by a text.
abbrev pub Table : Type 0 → Type 0
Table V = String → Option V

-- The row at one key replaced.
abbrev pub put : {V : Type 0} → String → V → Table V → Table V
put k v table j = if str_eq k j then some v else table j

abbrev pub empty : {V : Type 0} → Table V
empty k = none

module _ {A : Type 0} (at : A → ℤ) (id : A → ℕ) where
  -- `ORDER BY created_at DESC, event_id ASC`
  abbrev pub newer : A → A → Bool
  newer a b = ltb_ℤ (at b) (at a) || (eqb_ℤ (at a) (at b) && ltb (id a) (id b))

  -- `ORDER BY created_at, event_id`
  abbrev pub older : A → A → Bool
  older a b = ltb_ℤ (at a) (at b) || (eqb_ℤ (at a) (at b) && ltb (id a) (id b))

  pub newer-IsWeakOrder : IsWeakOrder newer
  newer-IsWeakOrder = record { asym = λ a b h. ground arith; neg_trans = λ a b c h k. ground arith }

  pub older-IsWeakOrder : IsWeakOrder older
  older-IsWeakOrder = record { asym = λ a b h. ground arith; neg_trans = λ a b c h k. ground arith }

  -- Rows that tie in either order have the same id.
  pub newer_tie : (a b : A) → newer a b ≡ false → newer b a ≡ false → id a ≡ id b
  newer_tie a b h k = ground arith

  pub older_tie : (a b : A) → older a b ≡ false → older b a ≡ false → id a ≡ id b
  older_tie a b h k = ground arith
