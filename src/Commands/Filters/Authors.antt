-- ===== src/Commands/Filters/Authors.antt =====
-- Whose events a filter asks for (src/nostr/filters.rs).
use bestiario.Prelude.{
  some-inj, ℕ, ◌≡◌, true, false, Option, none, some, List, [], String, arith, Bool-cases, inl, inr,
  refl, ◌⊎◌, subst, sym, ◌∙◌, ◌↔◌, if◌then◌else◌,
}
use bestiario.Prelude.Lists.{In, collect-In}
use bestiario.Ingest.Policy.{untagged}
use bestiario.Commands.Range.{Range}
use bestiario.Commands.Filters.{Filter, for_kind, narrowed, per_kind, is_nil, indexed_kinds}

abbrev if_any : List String → Option (List String)
if_any authors = if is_nil authors then none else some authors

-- A kind without a `y` tag is asked of vouched publishers alone; another kind of the authors, where
-- there are any.
abbrev pub Asks : Filter → List String → List String → Type 0
Asks filter authors vouched =
    (untagged filter.kind ≡ true) × (is_nil vouched ≡ false) × (filter.authors ≡ some vouched)
    ⊎ ((untagged filter.kind ≡ false) × (filter.authors ≡ if_any authors))

module _ (kind : ℕ) (authors vouched : List String) (range : Option Range) (limit : Option ℕ) where
  narrowed-authors : (narrowed kind authors range limit).authors ≡ if_any authors
  unfolding narrowed
  narrowed-authors = refl

  for_kind-vouched :
      untagged kind ≡ true
      → is_nil vouched ≡ false
      → some (narrowed kind vouched range limit) ≡ for_kind kind authors vouched range limit
  unfolding for_kind
  for_kind-vouched t e = rw (t, e) refl

  for_kind-authors :
      untagged kind ≡ false
      → some (narrowed kind authors range limit) ≡ for_kind kind authors vouched range limit
  unfolding for_kind
  for_kind-authors t = rw t refl

  for_kind-nobody :
      untagged kind ≡ true
      → is_nil vouched ≡ true
      → none ≡ for_kind kind authors vouched range limit
  unfolding for_kind
  for_kind-nobody t e = rw (t, e) refl

for_kind-Asks :
    (kind : ℕ) (authors vouched : List String) (range : Option Range) (limit : Option ℕ)
    (filter : Filter)
    → for_kind kind authors vouched range limit ≡ some filter
    → (filter.kind ≡ kind) × Asks filter authors vouched
unfolding narrowed
for_kind-Asks kind authors vouched range limit filter h = elim (Bool-cases (untagged kind)) [
  | inl t ↦ elim (Bool-cases (is_nil vouched)) [
    | inl e ↦ absurd (cc (for_kind-nobody kind authors vouched range limit t e ∙ h))
    | inr e ↦
        subst (λ f. (f.kind ≡ kind) × Asks f authors vouched)
          (some-inj (for_kind-vouched kind authors vouched range limit t e ∙ h))
          (refl, inl (t, e, narrowed-authors kind vouched [] range limit ∙ rw e refl))
  ]
  | inr t ↦
      subst (λ f. (f.kind ≡ kind) × Asks f authors vouched)
        (some-inj (for_kind-authors kind authors vouched range limit t ∙ h)) (refl, inr (t, asked))
]
  where
    asked : (narrowed kind authors range limit).authors ≡ if_any authors
    asked = narrowed-authors kind authors [] range limit

-- Each filter of a subscription is for an indexed kind; for a kind without a `y` tag it names the
-- vouched publishers, of which there is one, and for another kind it names the authors, or nobody
-- where there are none.
pub per_kind-Asks :
    (authors vouched : List String) (range : Option Range) (limit : Option ℕ) (filter : Filter)
    → In filter (per_kind authors vouched range limit)
    → In filter.kind indexed_kinds × Asks filter authors vouched
unfolding per_kind
per_kind-Asks authors vouched range limit filter i =
    let (kind, j, e) =
      collect-In (λ kind. for_kind kind authors vouched range limit) filter indexed_kinds i in
    let (q, asks) = for_kind-Asks kind authors vouched range limit filter e in
    (subst (λ k. In k indexed_kinds) (sym q) j, asks)

-- Nothing is asked only for a kind without a `y` tag where nobody is vouched for.
pub for_kind-none :
    (kind : ℕ) (authors vouched : List String) (range : Option Range) (limit : Option ℕ)
    → (for_kind kind authors vouched range limit ≡ none)
      ↔ ((untagged kind ≡ true) × (is_nil vouched ≡ true))
unfolding for_kind
for_kind-none kind authors vouched range limit = (λ h. ground arith, λ (t, e). rw (t, e) refl)

-- A filter that is built narrows to its kind, to some authors, to the range and to the limit.
pub for_kind-narrowed :
    (kind : ℕ) (authors vouched : List String) (range : Option Range) (limit : Option ℕ)
    (filter : Filter)
    → for_kind kind authors vouched range limit ≡ some filter
    → (asked : List String) × (narrowed kind asked range limit ≡ filter)
for_kind-narrowed kind authors vouched range limit filter h = elim (Bool-cases (untagged kind)) [
  | inl t ↦ elim (Bool-cases (is_nil vouched)) [
    | inl e ↦ absurd (cc (for_kind-nobody kind authors vouched range limit t e ∙ h))
    | inr e ↦ (vouched, some-inj (for_kind-vouched kind authors vouched range limit t e ∙ h))
  ]
  | inr t ↦ (authors, some-inj (for_kind-authors kind authors vouched range limit t ∙ h))
]
