-- ===== src/Db/Projection.antt =====
-- A table of versions and the table projected from it: `order_versions` with `orders`, and
-- `dispute_versions` with `disputes`. A client gives the row that the versions of one subject make,
-- with its laws, and gets that the projection stays current.
use bestiario.Prelude.{
  ℕ, String, ◌≡◌, ◌≢◌, refl, sym, ◌∙◌, Bool, true, Option, none, some, List, str_eq, eq_iff,
  Bool-cases, Option-cases, inl, inr, ◌⊎◌,
}
use bestiario.Prelude.Lists.{In, IsKeyed, SameRows, select, select-In, In-select, SameRows-select}
use bestiario.Db.Table.{Table, put, insert_or_ignore, In-insert_or_ignore, insert_or_ignore_cases}

pub record Projection (V O : Type 0) : Type 0 where
  pub event_id : V → ℕ
  pub owner : V → String
  pub row : List V → Option O
  pub same : (xs ys : List V) → SameRows xs ys → IsKeyed event_id xs → row xs ≡ row ys
  pub some_row : (v : V) (vs : List V) → In v vs → row vs ≢ none
  pub witness : (vs : List V) (o : O) → row vs ≡ some o → (v : V) × In v vs

module _ {V O : Type 0} (p : Projection V O) where
  abbrev pub owned : String → V → Bool
  owned id v = str_eq (p.owner v) id

  -- The row of one subject, from all versions.
  unfoldable pub project : List V → String → Option O
  project versions id = p.row (select (owned id) versions)

  -- `INSERT … SELECT … ON CONFLICT DO UPDATE`: a subject with no versions gets no row, and no row is
  -- taken away.
  unfoldable pub refresh : String → List V → Table O → Table O
  refresh id versions table = elim (project versions id) [
    | none ↦ table
    | some row ↦ put id row table
  ]

  -- The projected table is the projection of the versions, row by row.
  abbrev pub IsCurrent : List V → Table O → Type 0
  IsCurrent versions table = (id : String) → table id ≡ project versions id

  pub project-SameRows :
      (xs ys : List V) (id : String)
      → SameRows xs ys
      → IsKeyed p.event_id xs
      → project xs id ≡ project ys id
  unfolding project
  project-SameRows xs ys id same keyed =
      p.same (select (owned id) xs) (select (owned id) ys) (SameRows-select (owned id) same)
        (λ a b i j e. keyed a b (select-In (owned id) a xs i).0 (select-In (owned id) b xs j).0 e)

  pub project-ne-none : (v : V) (vs : List V) → In v vs → project vs (p.owner v) ≢ none
  unfolding project
  project-ne-none v vs i =
      p.some_row v (select (owned (p.owner v)) vs)
        (In-select (owned (p.owner v)) v vs i ((eq_iff (p.owner v) (p.owner v)).1 refl))

  pub project-witness :
      (vs : List V) (id : String) (o : O)
      → project vs id ≡ some o
      → (v : V) × In v vs × (p.owner v ≡ id)
  unfolding project
  project-witness vs id o h =
      let (v, i) = p.witness (select (owned id) vs) o h in
      let (j, t) = select-In (owned id) v vs i in (v, j, (eq_iff (p.owner v) id).0 t)

  refreshed :
      (id j : String) (vs : List V) (table : Table O) (o : Option O)
      → project vs id ≡ o
      → (j ≢ id → table j ≡ project vs j)
      → (o ≡ none → table id ≡ none)
      → (elim o as (λ _. Table O) [ none ↦ table | some row ↦ put id row table ]) j ≡ project vs j
  refreshed id j vs table none e others gone = elim (Bool-cases (str_eq id j)) [
    | inl t ↦ let q : id ≡ j = (eq_iff id j).0 t in rw (← q) (gone refl ∙ sym e)
    | inr t ↦ others (λ q. cc (t, (eq_iff id j).1 (sym q)))
  ]
  refreshed id j vs table (some row) e others gone = elim (Bool-cases (str_eq id j)) [
    | inl t ↦ let q : id ≡ j = (eq_iff id j).0 t in rw t (sym (rw q at e))
    | inr t ↦ rw t (others (λ q. cc (t, (eq_iff id j).1 (sym q))))
  ]

  -- A refresh of one subject makes the table current, if the other rows were.
  pub refresh-IsCurrent :
      (id : String) (vs : List V) (table : Table O)
      → ((j : String) → j ≢ id → table j ≡ project vs j)
      → (project vs id ≡ none → table id ≡ none)
      → IsCurrent vs (refresh id vs table)
  unfolding refresh
  refresh-IsCurrent id vs table others gone j =
      refreshed id j vs table (project vs id) refl (others j) gone

  module _ (v : V) (vs : List V) (keyed : IsKeyed p.event_id vs) where
    pub others_unchanged :
        (j : String) → j ≢ p.owner v → project vs j ≡ project (insert_or_ignore p.event_id v vs) j
    unfolding project
    others_unchanged j ne =
        p.same (select (owned j) vs) (select (owned j) (insert_or_ignore p.event_id v vs))
          (record { to = to; back = back })
          (λ a b i k e. keyed a b (select-In (owned j) a vs i).0 (select-In (owned j) b vs k).0 e)
      where
        to :
            (a : V)
            → In a (select (owned j) vs)
            → In a (select (owned j) (insert_or_ignore p.event_id v vs))
        to a i =
            let (k, t) = select-In (owned j) a vs i in
            In-select (owned j) a (insert_or_ignore p.event_id v vs)
              (In-insert_or_ignore p.event_id a v vs k) t

        from : (a : V) → owned j a ≡ true → In a vs ⊎ (a ≡ v) → In a (select (owned j) vs)
        from a t (inl i) = In-select (owned j) a vs i t
        from a t (inr e) = absurd (ne (sym (rw e at ((eq_iff (p.owner a) j).0 t))))

        back :
            (a : V)
            → In a (select (owned j) (insert_or_ignore p.event_id v vs))
            → In a (select (owned j) vs)
        back a i =
            let (k, t) = select-In (owned j) a (insert_or_ignore p.event_id v vs) i in
            from a t (insert_or_ignore_cases p.event_id a v vs k)

    -- Storing a version and refreshing its subject keeps the projection current.
    pub insert-IsCurrent :
        (table : Table O)
        → IsCurrent vs table
        → IsCurrent
            (insert_or_ignore p.event_id v vs)
            (refresh (p.owner v) (insert_or_ignore p.event_id v vs) table)
    insert-IsCurrent table current =
        refresh-IsCurrent (p.owner v) (insert_or_ignore p.event_id v vs) table
          (λ j ne. current j ∙ others_unchanged j ne) gone
      where
        gone :
            project (insert_or_ignore p.event_id v vs) (p.owner v) ≡ none → table (p.owner v) ≡ none
        gone h = elim (Option-cases (project vs (p.owner v))) [
          | inl e ↦ current (p.owner v) ∙ e
          | inr found ↦
              let (o, e) = found in
              let (w, i, q) = project-witness vs (p.owner v) o e in
              absurd (
                project-ne-none w (insert_or_ignore p.event_id v vs)
                  (In-insert_or_ignore p.event_id w v vs i) (rw q h))
        ]
