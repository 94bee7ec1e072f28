-- ===== src/Rebuild/Derived.antt =====
-- Which versions a replay of archived events stores (src/commands/rebuild.rs).
use bestiario.Prelude.{
  map, ◌≡◌, refl, sym, ap, ◌∙◌, ◌⊎◌, inl, inr, Option, none, some, List, [], ◌∷◌, subst,
}
use bestiario.Prelude.Lists.{In, In-map, map-In, IsKeyed, SameRows}
use bestiario.Db.Table.{
  Table, insert_or_ignore, In-insert_or_ignore, insert_or_ignore_cases, insert_or_ignore_has,
}
use bestiario.Db.Projection.{Projection}
use bestiario.Rebuild.Replay.{take, take_all}

module _ {V O : Type 0} (p : Projection V O) where
  -- The versions stored after a replay: what was there, and what the events gave.
  pub take-cases :
      (o : Option V) (state : List V × Table O) (a : V)
      → In a (take p o state).0
      → In a state.0 ⊎ (o ≡ some a)
  take-cases none state a i = inl i
  take-cases (some v) (versions, table) a i =
      split (insert_or_ignore_cases p.event_id a v versions i)
    where
      split : In a versions ⊎ (a ≡ v) → In a versions ⊎ (some v ≡ some a)
      split (inl j) = inl j
      split (inr e) = inr (ap some (sym e))

  take_all-cases :
      (os : List (Option V)) (state : List V × Table O) (a : V)
      → In a (take_all p os state).0
      → In a state.0 ⊎ In (some a) os
  take_all-cases [] state a i = inl i
  take_all-cases (o ∷ os) state a i = split (take_all-cases os (take p o state) a i)
    where
      first_or_before : In a state.0 ⊎ (o ≡ some a) → In a state.0 ⊎ In (some a) (o ∷ os)
      first_or_before (inl j) = inl j
      first_or_before (inr e) = inr (inl (sym e))

      split : In a (take p o state).0 ⊎ In (some a) os → In a state.0 ⊎ In (some a) (o ∷ os)
      split (inl j) = first_or_before (take-cases o state a j)
      split (inr j) = inr (inr j)

  -- `Q` holds of the versions at hand, and tells two of one event id to be the same.
  module _ (Q : V → Type 0)
      (coherent : (a b : V) → Q a → Q b → p.event_id a ≡ p.event_id b → a ≡ b) where
    take-In :
        (o : Option V) (state : List V × Table O) (a : V)
        → ((b : V) → In b state.0 → Q b)
        → ((b : V) → o ≡ some b → Q b)
        → In a state.0 ⊎ (o ≡ some a)
        → In a (take p o state).0
    take-In none state a old new (inl i) = i
    take-In none state a old new (inr e) = absurd (cc e)
    take-In (some v) (versions, table) a old new (inl i) =
        In-insert_or_ignore p.event_id a v versions i
    take-In (some v) (versions, table) a old new (inr e) =
        let (b, i, same) = insert_or_ignore_has p.event_id v versions in
        let q : v ≡ a = cc e in
        subst (λ c. In c (insert_or_ignore p.event_id v versions))
          (coherent b v (known b (insert_or_ignore_cases p.event_id b v versions i)) (new v refl)
              same
            ∙ q)
          i
      where
        known : (b : V) → In b versions ⊎ (b ≡ v) → Q b
        known b (inl j) = old b j
        known b (inr q) = subst Q (sym q) (new v refl)

    take_all-In :
        (os : List (Option V)) (state : List V × Table O) (a : V)
        → ((b : V) → In b state.0 → Q b)
        → ((b : V) → In (some b) os → Q b)
        → In a state.0 ⊎ In (some a) os
        → In a (take_all p os state).0
    take_all-In [] state a old new (inl i) = i
    take_all-In [] state a old new (inr i) = absurd i
    take_all-In (o ∷ os) state a old new h =
        take_all-In os (take p o state) a (λ b i. stored b (take-cases o state b i))
          (λ b i. new b (inr i)) (split h)
      where
        stored : (b : V) → In b state.0 ⊎ (o ≡ some b) → Q b
        stored b (inl i) = old b i
        stored b (inr e) = new b (inl (sym e))

        here : (c : In a state.0 ⊎ (o ≡ some a)) → In a (take p o state).0
        here c = take-In o state a old (λ b e. new b (inl (sym e))) c

        split : In a state.0 ⊎ In (some a) (o ∷ os) → In a (take p o state).0 ⊎ In (some a) os
        split (inl i) = inl (here (inl i))
        split (inr (inl e)) = inl (here (inr (sym e)))
        split (inr (inr i)) = inr i

  -- The versions are exactly what the archived events give.
  pub record IsDerived {E : Type 0} (version_of : E → Option V) (events : List E)
      (versions : List V) : Type 0 where
    pub to : (a : V) → In a versions → (r : E) × In r events × (version_of r ≡ some a)
    pub back : (a : V) (r : E) → In r events → version_of r ≡ some a → In a versions

  -- So a replay of all events into an empty table, in any order, gives the same versions.
  pub take_all-SameRows :
      {E : Type 0} (version_of : E → Option V) (events events' : List E) (versions : List V)
      (table : Table O)
      → IsDerived version_of events versions
      → IsKeyed p.event_id versions
      → SameRows events events'
      → SameRows versions (take_all p (map version_of events') ([], table)).0
  take_all-SameRows version_of events events' versions table derived keyed same = record {
    to = to;
    back = back;
  }
    where
      given : (b : V) → In (some b) (map version_of events') → In b versions
      given b i =
          let (r, j, e) = map-In version_of (some b) events' i in
          derived.back b r (same.back r j) (sym e)

      to : (a : V) → In a versions → In a (take_all p (map version_of events') ([], table)).0
      to a i =
          let (r, j, e) = derived.to a i in
          take_all-In (λ b. In b versions) keyed (map version_of events') ([], table) a
            (λ b k. absurd k) given
            (inr (
              subst (λ o. In o (map version_of events')) e
                (In-map version_of r events' (same.to r j))))

      back : (a : V) → In a (take_all p (map version_of events') ([], table)).0 → In a versions
      back a i = split (take_all-cases (map version_of events') ([], table) a i)
        where
          split : In a [] ⊎ In (some a) (map version_of events') → In a versions
          split (inl j) = absurd j
          split (inr j) = given a j
