-- ===== src/Rebuild/Replay.antt =====
-- Versions taken one after another, and the rows they project: what a replay does to one table of
-- versions and its projection.
use bestiario.Prelude.{
  String, ◌≡◌, ◌≢◌, refl, sym, ◌∙◌, ◌⊎◌, inl, inr, Bool-cases, Option-cases, Option, none, some,
  List, [], ◌∷◌, str_eq, eq_iff, subst,
}
use bestiario.Prelude.Lists.{In, IsKeyed}
use bestiario.Db.Table.{Table, put, insert_or_ignore, In-insert_or_ignore, IsKeyed-insert_or_ignore}
use bestiario.Db.Projection.{
  Projection, project, refresh, IsCurrent, project-ne-none, project-witness, others_unchanged,
}

module _ {V O : Type 0} (p : Projection V O) where
  -- A version, where the event has one, is stored and its subject refreshed.
  abbrev pub take : Option V → List V × Table O → List V × Table O
  take none (versions, table) = (versions, table)
  take (some v) (versions, table) = (
    insert_or_ignore p.event_id v versions,
    refresh p (p.owner v) (insert_or_ignore p.event_id v versions) table,
  )

  abbrev pub take_all : List (Option V) → List V × Table O → List V × Table O
  take_all [] state = state
  take_all (o ∷ os) state = take_all os (take o state)

  abbrev pub sweep : List String → List V → Table O → Table O
  sweep [] versions table = table
  sweep (id ∷ ids) versions table = sweep ids versions (refresh p id versions table)

  -- No row is stale: it is missing, or what the versions project to.
  abbrev pub IsFresh : List V × Table O → Type 0
  IsFresh (versions, table) =
      IsKeyed p.event_id versions
      × ((id : String) → (table id ≡ none) ⊎ (table id ≡ project p versions id))

  refresh-none :
      (id : String) (versions : List V) (table : Table O)
      → project p versions id ≡ none
      → refresh p id versions table ≡ table
  unfolding refresh
  refresh-none id versions table e = rw (refresh, e) refl

  refresh-some :
      (id : String) (versions : List V) (table : Table O) (row : O)
      → project p versions id ≡ some row
      → refresh p id versions table ≡ put id row table
  unfolding refresh
  refresh-some id versions table row e = rw (refresh, e) refl

  -- One row put in is current, where the row is the projection.
  put-IsFresh :
      (id : String) (versions : List V) (table : Table O) (row : O)
      → project p versions id ≡ some row
      → ((j : String) → j ≢ id → (table j ≡ none) ⊎ (table j ≡ project p versions j))
      → (j : String) → (put id row table j ≡ none) ⊎ (put id row table j ≡ project p versions j)
  put-IsFresh id versions table row e h j = elim (Bool-cases (str_eq id j)) [
    | inl t ↦
        let q : id ≡ j = (eq_iff id j).0 t in
        inr (rw t (sym (subst (λ k. project p versions k ≡ some row) q e)))
    | inr t ↦ rw t (h j (λ q. cc (t, (eq_iff id j).1 (sym q))))
  ]

  refresh-IsFresh :
      (id : String) (versions : List V) (table : Table O)
      → ((j : String) → (table j ≡ none) ⊎ (table j ≡ project p versions j))
      → (j : String)
      → (refresh p id versions table j ≡ none)
        ⊎ (refresh p id versions table j ≡ project p versions j)
  refresh-IsFresh id versions table h j = elim (Option-cases (project p versions id)) [
    | inl e ↦ rw (refresh-none id versions table e) (h j)
    | inr found ↦
        let (row, e) = found in
        rw (refresh-some id versions table row e)
          (put-IsFresh id versions table row e (λ k ne. h k) j)
  ]

  take-IsFresh : (o : Option V) (state : List V × Table O) → IsFresh state → IsFresh (take o state)
  take-IsFresh none state f = f
  take-IsFresh (some v) (versions, table) (keyed, h) =
      (IsKeyed-insert_or_ignore p.event_id v versions keyed, fresh)
    where
      versions' : List V
      versions' = insert_or_ignore p.event_id v versions

      moved :
          (k : String)
          → k ≢ p.owner v
          → (table k ≡ none) ⊎ (table k ≡ project p versions k)
          → (table k ≡ none) ⊎ (table k ≡ project p versions' k)
      moved k ne (inl n) = inl n
      moved k ne (inr c) = inr (c ∙ others_unchanged p v versions keyed k ne)

      -- The version was ignored, and its subject has no other.
      unowned :
          project p versions' (p.owner v) ≡ none
          → (table (p.owner v) ≡ none) ⊎ (table (p.owner v) ≡ project p versions (p.owner v))
          → table (p.owner v) ≡ none
      unowned e (inl n) = n
      unowned e (inr c) = elim (Option-cases (project p versions (p.owner v))) [
        | inl n ↦ c ∙ n
        | inr found ↦
            let (row, q) = found in
            let (w, i, same) = project-witness p versions (p.owner v) row q in
            absurd (
              project-ne-none p w versions' (In-insert_or_ignore p.event_id w v versions i)
                (subst (λ k. project p versions' k ≡ none) (sym same) e))
      ]

      untouched :
          project p versions' (p.owner v) ≡ none
          → (j : String) → (table j ≡ none) ⊎ (table j ≡ project p versions' j)
      untouched e j = elim (Bool-cases (str_eq j (p.owner v))) [
        | inl t ↦
            let q : j ≡ p.owner v = (eq_iff j (p.owner v)).0 t in
            inl (subst (λ k. table k ≡ none) (sym q) (unowned e (h (p.owner v))))
        | inr t ↦ moved j (λ q. cc (t, (eq_iff j (p.owner v)).1 q)) (h j)
      ]

      fresh :
          (j : String)
          → (refresh p (p.owner v) versions' table j ≡ none)
            ⊎ (refresh p (p.owner v) versions' table j ≡ project p versions' j)
      fresh j = elim (Option-cases (project p versions' (p.owner v))) [
        | inl e ↦ rw (refresh-none (p.owner v) versions' table e) (untouched e j)
        | inr found ↦
            let (row, e) = found in
            rw (refresh-some (p.owner v) versions' table row e)
              (put-IsFresh (p.owner v) versions' table row e (λ k ne. moved k ne (h k)) j)
      ]

  pub take_all-IsFresh :
      (os : List (Option V)) (state : List V × Table O)
      → IsFresh state
      → IsFresh (take_all os state)
  take_all-IsFresh [] state f = f
  take_all-IsFresh (o ∷ os) state f = take_all-IsFresh os (take o state) (take-IsFresh o state f)

  sweep-IsFresh :
      (ids : List String) (versions : List V) (table : Table O)
      → ((j : String) → (table j ≡ none) ⊎ (table j ≡ project p versions j))
      → (j : String)
      → (sweep ids versions table j ≡ none) ⊎ (sweep ids versions table j ≡ project p versions j)
  sweep-IsFresh [] versions table h = h
  sweep-IsFresh (id ∷ ids) versions table h =
      sweep-IsFresh ids versions (refresh p id versions table) (refresh-IsFresh id versions table h)

  -- Afterwards the row of an id that was swept is current, and stays so.
  refresh-current :
      (id : String) (versions : List V) (table : Table O)
      → (project p versions id ≡ none → table id ≡ none)
      → refresh p id versions table id ≡ project p versions id
  refresh-current id versions table h = elim (Option-cases (project p versions id)) [
    | inl e ↦ rw (refresh-none id versions table e) (h e ∙ sym e)
    | inr found ↦
        let (row, e) = found in
        rw (refresh-some id versions table row e, (eq_iff id id).1 refl) (sym e)
  ]

  refresh-keeps :
      (id j : String) (versions : List V) (table : Table O)
      → table j ≡ project p versions j
      → refresh p id versions table j ≡ project p versions j
  refresh-keeps id j versions table c = elim (Option-cases (project p versions id)) [
    | inl e ↦ rw (refresh-none id versions table e) c
    | inr found ↦
        let (row, e) = found in
        elim (Bool-cases (str_eq id j)) [
          | inl t ↦
              let q : id ≡ j = (eq_iff id j).0 t in
              rw (refresh-some id versions table row e, t)
                (sym (subst (λ k. project p versions k ≡ some row) q e))
          | inr t ↦ rw (refresh-some id versions table row e, t) c
        ]
  ]

  sweep-keeps :
      (ids : List String) (j : String) (versions : List V) (table : Table O)
      → table j ≡ project p versions j
      → sweep ids versions table j ≡ project p versions j
  sweep-keeps [] j versions table c = c
  sweep-keeps (id ∷ ids) j versions table c =
      sweep-keeps ids j versions (refresh p id versions table) (refresh-keeps id j versions table c)

  sweep-current :
      (ids : List String) (j : String) (versions : List V) (table : Table O)
      → In j ids
      → ((k : String) → (table k ≡ none) ⊎ (table k ≡ project p versions k))
      → sweep ids versions table j ≡ project p versions j
  sweep-current [] j versions table i h = absurd i
  sweep-current (id ∷ ids) j versions table (inl q) h =
      sweep-keeps ids j versions (refresh p id versions table) (
        subst (λ k. refresh p id versions table k ≡ project p versions k) (sym q)
          (refresh-current id versions table (λ e. missing (h id) e)))
    where
      missing :
          (table id ≡ none) ⊎ (table id ≡ project p versions id)
          → project p versions id ≡ none
          → table id ≡ none
      missing (inl n) e = n
      missing (inr c) e = c ∙ e
  sweep-current (id ∷ ids) j versions table (inr i) h =
      sweep-current ids j versions (refresh p id versions table) i
        (refresh-IsFresh id versions table h)

  -- A sweep over the ids of all versions brings a table that was only fresh up to date.
  pub sweep-IsCurrent :
      (ids : List String) (versions : List V) (table : Table O)
      → ((v : V) → In v versions → In (p.owner v) ids)
      → IsFresh (versions, table)
      → IsCurrent p versions (sweep ids versions table)
  sweep-IsCurrent ids versions table owners (keyed, h) j =
      elim (Option-cases (project p versions j)) [
        | inl e ↦ unowned (sweep-IsFresh ids versions table h j) e
        | inr found ↦
            let (row, e) = found in
            let (w, i, same) = project-witness p versions j row e in
            sweep-current ids j versions table (subst (λ k. In k ids) same (owners w i)) h
      ]
    where
      unowned :
          (sweep ids versions table j ≡ none) ⊎ (sweep ids versions table j ≡ project p versions j)
          → project p versions j ≡ none
          → sweep ids versions table j ≡ project p versions j
      unowned (inl n) e = n ∙ sym e
      unowned (inr c) e = c
