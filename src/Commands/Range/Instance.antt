-- ===== src/Commands/Range/Instance.antt =====
-- What the instance that a command names resolves to (src/commands/range.rs).
use bestiario.Prelude.{
  ◌≡◌, Bool, true, false, Option, none, some, List, [], ◌∷◌, String, refl, ◌≤◌, Bool-cases, arith,
  inl, inr, sym, subst, ◌⊎◌, ap, ◌∙◌,
}
use bestiario.Prelude.Lists.{In, select, length, map-In, select-In, In-select, In-map}
use bestiario.Prelude.Result.{Result, ok, err}
use bestiario.Prelude.Text.{trim}
use bestiario.Ingest.Event.{Sdk}
use bestiario.Commands.Range.{
  InstanceFilter, all, one, InstanceError, not_found, ambiguous, KnownInstance, matches_exactly,
  matches, find, settled, decide, matching, resolve_instance,
}

-- The first of the instances that passes a test: none before it does.
abbrev pub IsFirst : (KnownInstance → Bool) → KnownInstance → List KnownInstance → Type 0
IsFirst p instance [] = ⊥
IsFirst p instance (x ∷ known) =
    ((x ≡ instance) × (p x ≡ true)) ⊎ ((p x ≡ false) × IsFirst p instance known)

-- Why an instance is the answer: no other matched, or several did and it is the first of those that do
-- so exactly.
abbrev pub IsChosen : Sdk → String → List KnownInstance → KnownInstance → Type 0
IsChosen sdk needle known instance =
    (matching sdk needle known ≡ instance.0 ∷ [])
    ⊎ ((2 ≤ length (matching sdk needle known)) × IsFirst (matches_exactly needle) instance known)

-- What an answer says of the known instances.
abbrev pub Describes :
    Sdk → Option String → List KnownInstance → Result InstanceError InstanceFilter → Type 0
Describes sdk none known result = result ≡ ok all
Describes sdk (some text) known (ok all) = ⊥
Describes sdk (some text) known (ok (one pubkey)) =
    (instance : KnownInstance) × In instance known
    × (instance.0 ≡ pubkey)
    × (matches sdk (trim text) instance ≡ true)
    × IsChosen sdk (trim text) known instance
Describes sdk (some text) known (err (not_found needle)) =
    (needle ≡ trim text)
    × ((instance : KnownInstance) → In instance known → matches sdk (trim text) instance ≡ false)
Describes sdk (some text) known (err (ambiguous needle pubkeys)) =
    (needle ≡ trim text)
    × (pubkeys ≡ matching sdk (trim text) known)
    × (2 ≤ length pubkeys)
    × ((instance : KnownInstance)
        → In instance known
        → matches_exactly (trim text) instance ≡ false)

-- A pubkey that matched is a known instance's.
matching-In :
    (sdk : Sdk) (needle pubkey : String) (known : List KnownInstance)
    → In pubkey (matching sdk needle known)
    → (instance : KnownInstance) × In instance known
      × (instance.0 ≡ pubkey)
      × (matches sdk needle instance ≡ true)
unfolding matching
matching-In sdk needle pubkey known i =
    let (instance, j, e) = map-In (λ x. x.0) pubkey (select (matches sdk needle) known) i in
    let (k, m) = select-In (matches sdk needle) instance known j in (instance, k, sym e, m)

find-some :
    (p : KnownInstance → Bool) (known : List KnownInstance) (instance : KnownInstance)
    → find p known ≡ some instance
    → In instance known × (p instance ≡ true) × IsFirst p instance known
unfolding find
find-some p [] instance h = cc
find-some p (x ∷ known) instance h = elim (Bool-cases (p x)) [
  | inl e ↦
      let q : x ≡ instance = cc (rw e at h) in
      (inl (sym q), subst (λ y. p y ≡ true) q e, inl (q, e))
  | inr e ↦ let (i, t, f) = find-some p known instance (rw e at h) in (inr i, t, inr (e, f))
]

find-none :
    (p : KnownInstance → Bool) (known : List KnownInstance) (instance : KnownInstance)
    → find p known ≡ none
    → In instance known
    → p instance ≡ false
unfolding find
find-none p [] instance h i = elim i [ ]
find-none p (x ∷ known) instance h i = elim (Bool-cases (p x)) [
  | inl e ↦ absurd (cc (rw e at h))
  | inr e ↦ place (λ j. find-none p known instance (rw e at h) j) e i
]
  where
    place :
        (In instance known → p instance ≡ false)
        → p x ≡ false
        → In instance (x ∷ known)
        → p instance ≡ false
    place ih e (inl q) = subst (λ y. p y ≡ false) (sym q) e
    place ih e (inr j) = ih j

exactly-matches :
    (sdk : Sdk) (needle : String) (instance : KnownInstance)
    → matches_exactly needle instance ≡ true
    → matches sdk needle instance ≡ true
unfolding matches_exactly matches
exactly-matches sdk needle (pubkey, name) h = ground arith

-- What the instance named on the command line resolves to, on every branch: all instances where
-- none is named; else a known instance that matches the trimmed text, either because the pubkeys
-- that match are that one alone, or because at least two match and it is the first of the known
-- instances to match exactly; or that none matches, and none does; or that several match, with the
-- pubkeys of all that match, at least two, and none of the known instances matches exactly.
pub resolve_instance-Describes :
    (sdk : Sdk) (needle : Option String) (known : List KnownInstance)
    → Describes sdk needle known (resolve_instance sdk needle known)
unfolding resolve_instance
resolve_instance-Describes sdk none known = refl
resolve_instance-Describes sdk (some text) known = decided (matching sdk (trim text) known) refl
  where
    found :
        (first second : String) (pubkeys : List String) (o : Option KnownInstance)
        → find (matches_exactly (trim text)) known ≡ o
        → first ∷ second ∷ pubkeys ≡ matching sdk (trim text) known
        → Describes sdk (some text) known (settled (trim text) (first ∷ second ∷ pubkeys) o)
    found first second pubkeys (some (pubkey, name)) e q =
        let (i, t, f) = find-some (matches_exactly (trim text)) known (pubkey, name) e in
        let several : 2 ≤ length (matching sdk (trim text) known) =
          subst (λ ps. 2 ≤ length ps) q (omega arith) in
        (
          (pubkey, name),
          i,
          refl,
          exactly-matches sdk (trim text) (pubkey, name) t,
          inr (several, f),
        )
    found first second pubkeys none e q = (
      refl,
      q,
      omega arith,
      λ instance i. find-none (matches_exactly (trim text)) known instance e i,
    )

    unmatched :
        [] ≡ matching sdk (trim text) known
        → (instance : KnownInstance) → In instance known
        → matches sdk (trim text) instance ≡ false
    unmatched q instance i = elim (Bool-cases (matches sdk (trim text) instance)) [
      | inl e ↦ absurd (
          subst (In instance.0) (sym q)
            (In-map (λ x. x.0) instance _ (In-select (matches sdk (trim text)) instance known i e)))
      | inr e ↦ e
    ]

    decided :
        (ps : List String)
        → ps ≡ matching sdk (trim text) known
        → Describes sdk (some text) known (decide (trim text) known ps)
    decided [] q = (refl, λ instance i. unmatched q instance i)
    decided (pubkey ∷ []) q =
        let (instance, i, e, m) =
          matching-In sdk (trim text) pubkey known (subst (In pubkey) q (inl refl)) in
        (instance, i, e, m, inl (sym q ∙ ap (λ k. k ∷ []) (sym e)))
    decided (first ∷ second ∷ pubkeys) q = found first second pubkeys _ refl q
