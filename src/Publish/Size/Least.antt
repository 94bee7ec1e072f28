-- ===== src/Publish/Size/Least.antt =====
-- The ceiling of several relays (crates/stats/src/publish/size.rs, src/commands/publish.rs).
use bestiario.Prelude.{
  ℕ, ltb, ◌<◌, ◌≡◌, Option, none, some, List, [], ◌∷◌, refl, sym, arith, inl, inr, ◌⊎◌, ◌↔◌, subst,
  Bool-cases, some-inj,
}
use bestiario.Prelude.Lists.{In, select-In, In-select}
use bestiario.Publish.Size.{
  Ceiling, configured, and_relay, Measured, over, Limits, lowered_by, lowered, and_relays,
  ceiling_of,
}

-- A relay takes less than this.
abbrev pub Refuses : ℕ → Limits → Type 0
Refuses bytes limits = (limit : ℕ) × (limits.max_content_length ≡ some limit) × (limit < bytes)

abbrev pub SomeRefuses : ℕ → List Limits → Type 0
SomeRefuses bytes advertised = (limits : Limits) × In limits advertised × Refuses bytes limits

module _ (ceiling : Ceiling) (limits : Limits) (bytes : ℕ) where
  tighter :
      (limit : ℕ)
      → ((and_relay ceiling limits.relay limit).bytes < bytes)
        ↔ ((ceiling.bytes < bytes) ⊎ (limit < bytes))
  unfolding and_relay
  tighter limit = (
    λ h. elim (Bool-cases (ltb limit ceiling.bytes)) [
      | inl e ↦ inr (ground arith)
      | inr e ↦ inl (ground arith)
    ],
    λ h. ground arith,
  )

  by_limit :
      (o : Option ℕ)
      → ((lowered_by ceiling limits.relay o).bytes < bytes)
        ↔ ((ceiling.bytes < bytes) ⊎ ((limit : ℕ) × (o ≡ some limit) × (limit < bytes)))
  by_limit none = (λ h. inl h, λ h. elim h [ inl k ↦ k | inr (limit, q, k) ↦ absurd (cc q) ])
  by_limit (some limit) = (
    λ h. elim ((tighter limit).0 h) [ inl k ↦ inl k | inr k ↦ inr (limit, refl, k) ],
    λ h. (tighter limit).1 (elim h [
      | inl k ↦ inl k
      | inr (other, q, k) ↦ inr (subst (λ n. n < bytes) (sym (some-inj q)) k)
    ]),
  )

  lowered-below :
      ((lowered ceiling limits).bytes < bytes) ↔ ((ceiling.bytes < bytes) ⊎ Refuses bytes limits)
  unfolding lowered
  lowered-below = by_limit limits.max_content_length

and_relays-below :
    (ceiling : Ceiling) (advertised : List Limits) (bytes : ℕ)
    → ((and_relays ceiling advertised).bytes < bytes)
      ↔ ((ceiling.bytes < bytes) ⊎ SomeRefuses bytes advertised)
unfolding and_relays
and_relays-below ceiling [] bytes =
    (λ h. inl h, λ h. elim h [ inl k ↦ k | inr (limits, i, r) ↦ absurd i ])
and_relays-below ceiling (limits ∷ advertised) bytes =
    let (out, back) = and_relays-below (lowered ceiling limits) advertised bytes in
    let (split, join) = lowered-below ceiling limits bytes in
    (λ h. first (out h) split, λ h. back (last h join))
  where
    first :
        (((lowered ceiling limits).bytes < bytes) ⊎ SomeRefuses bytes advertised)
        → (((lowered ceiling limits).bytes < bytes)
            → ((ceiling.bytes < bytes) ⊎ Refuses bytes limits))
        → (ceiling.bytes < bytes) ⊎ SomeRefuses bytes (limits ∷ advertised)
    first (inl k) split = elim (split k) [ inl l ↦ inl l | inr r ↦ inr (limits, inl refl, r) ]
    first (inr (one, i, r)) split = inr (one, inr i, r)

    last :
        (ceiling.bytes < bytes) ⊎ SomeRefuses bytes (limits ∷ advertised)
        → (((ceiling.bytes < bytes) ⊎ Refuses bytes limits)
            → (lowered ceiling limits).bytes < bytes)
        → ((lowered ceiling limits).bytes < bytes) ⊎ SomeRefuses bytes advertised
    last (inl k) join = inl (join (inl k))
    last (inr (one, inl q, r)) join = inl (join (inr (subst (Refuses bytes) q r)))
    last (inr (one, inr i, r)) join = inr (one, i, r)

-- A measured document is over the ceiling exactly where it is larger than the configured bytes, or
-- larger than what some relay advertises as its limit.
pub over_exact :
    (bytes : ℕ) (advertised : List Limits) (measured : List Measured) (document : Measured)
    → In document (over measured (ceiling_of bytes advertised))
      ↔ (In document measured × ((bytes < document.bytes) ⊎ SomeRefuses document.bytes advertised))
unfolding over ceiling_of configured
over_exact bytes advertised measured document =
    let ceiling : Ceiling = ceiling_of bytes advertised in
    let (out, back) = and_relays-below (configured bytes) advertised document.bytes in
    (
      λ h.
          let (i, t) = select-In (λ d. ltb ceiling.bytes d.bytes) document measured h in
          (i, out (ground arith)),
      λ (i, why).
          let below : ceiling.bytes < document.bytes = back why in
          In-select (λ d. ltb ceiling.bytes d.bytes) document measured i (ground arith),
    )
