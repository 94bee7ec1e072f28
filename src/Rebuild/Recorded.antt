-- ===== src/Rebuild/Recorded.antt =====
-- The versions in the tables and the archived events they come from (src/ingest/pipeline.rs).
use bestiario.Prelude.{
  String, ◌≡◌, ◌≢◌, refl, sym, ap, ◌∙◌, ◌⊎◌, inl, inr, Bool-cases, Option, none, some, List, subst,
  ◌==◌,
}
use bestiario.Prelude.Lists.{In}
use bestiario.Prelude.Result.{ok, err, >>=-after, ok-inj, traverse}
use bestiario.Ingest.Event.{Event, Sdk}
use bestiario.Ingest.Parse.Tags.{Parse, expect_kind, optional, published_at, required}
use bestiario.Ingest.Parse.Order.{kind_order, parse_order}
use bestiario.Ingest.Parse.Order.Valid.{parse_order-IsValidOrder}
use bestiario.Ingest.Parse.Dispute.{
  DisputeVersion, kind_dispute, parse_initiator, parse_status, parse_dispute,
}
use bestiario.Ingest.Parse.DevFee.{kind_dev_fee, parse_dev_fee}
use bestiario.Ingest.Parse.Info.{kind_info, parse_info}
use bestiario.Ingest.Parse.Rates.{kind_rates, parse_rates}
use bestiario.Ingest.Parse.RelayList.{kind_relay_list, parse_relay_list}
use bestiario.Ingest.Persist.{
  Parsed, order, dev_fee, dispute, info, rates_of, relay_list, parsed_as, parse,
}
use bestiario.Db.Table.{
  insert_or_ignore, In-insert_or_ignore, insert_or_ignore_cases, insert_or_ignore_has,
}
use bestiario.Db.Events.{EventRecord, record_id}
use bestiario.Db.Projection.{Projection}
use bestiario.Rebuild.Replay.{take}
use bestiario.Rebuild.Derived.{IsDerived, take-cases}

-- A version carries the id of its event.
abbrev pub IsOf : Event → Parsed → Type 0
IsOf event (order v) = v.event_id ≡ event.id
IsOf event (dispute v) = v.event_id ≡ event.id
IsOf event _ = Unit

parse_dispute-id :
    (event : Event) (v : DisputeVersion) → parse_dispute event ≡ ok v → v.event_id ≡ event.id
unfolding parse_dispute
parse_dispute-id event v h0 = >>=-after (expect_kind event kind_dispute) h0 λ u e0 h1.
    >>=-after (optional event "initiator") h1 λ who e1 h2.
      >>=-after (traverse who parse_initiator) h2 λ initiator e2 h3.
        >>=-after (published_at event) h3 λ opened e3 h4.
          >>=-after (required event "d") h4 λ id e4 h5. >>=-after (required event "s") h5 λ s e5 h6.
            >>=-after (parse_status s) h6 λ status e6 h7. sym (ap (λ x. x.event_id) (ok-inj _ v h7))

parsed_as-IsOf :
    {A : Type 0} (event : Event) (wrap : A → Parsed) (r : Parse A) (parsed : Parsed)
    → ((a : A) → r ≡ ok a → IsOf event (wrap a))
    → parsed_as wrap r ≡ ok parsed
    → IsOf event parsed
parsed_as-IsOf event wrap (ok a) parsed k h =
    subst (IsOf event) (ok-inj (wrap a) parsed h) (k a refl)
parsed_as-IsOf event wrap (err error) parsed k h = absurd (cc h)

pub parse-IsOf :
    (sdk : Sdk) (event : Event) (parsed : Parsed) → parse sdk event ≡ ok parsed → IsOf event parsed
unfolding parse
parse-IsOf sdk event parsed h = elim (Bool-cases (event.kind == kind_order)) [
  | inl t ↦
      parsed_as-IsOf event order (parse_order sdk event) parsed
        (λ v e. (parse_order-IsValidOrder sdk event v e).event_id) (rw t at h)
  | inr f ↦ elim (Bool-cases (event.kind == kind_dev_fee)) [
    | inl t ↦
        parsed_as-IsOf event dev_fee (parse_dev_fee sdk event) parsed (λ v e. tt) (rw (f, t) at h)
    | inr f1 ↦ elim (Bool-cases (event.kind == kind_dispute)) [
      | inl t ↦
          parsed_as-IsOf event dispute (parse_dispute event) parsed
            (λ v e. parse_dispute-id event v e) (rw (f, f1, t) at h)
      | inr f2 ↦ elim (Bool-cases (event.kind == kind_info)) [
        | inl t ↦
            parsed_as-IsOf event info (parse_info sdk event) parsed (λ v e. tt)
              (rw (f, f1, f2, t) at h)
        | inr f3 ↦ elim (Bool-cases (event.kind == kind_rates)) [
          | inl t ↦
              parsed_as-IsOf event rates_of (parse_rates sdk event) parsed (λ v e. tt)
                (rw (f, f1, f2, f3, t) at h)
          | inr f4 ↦ elim (Bool-cases (event.kind == kind_relay_list)) [
            | inl t ↦
                parsed_as-IsOf event relay_list (parse_relay_list sdk event) parsed (λ v e. tt)
                  (rw (f, f1, f2, f3, f4, t) at h)
            | inr f5 ↦ let h' = rw (f, f1, f2, f3, f4, f5) at h in absurd (cc h')
          ]
        ]
      ]
    ]
  ]
]

-- One event archived, and its version taken: the versions are still what the events give.
module _ {V O : Type 0} (p : Projection V O) (version_of : EventRecord → Option V) where
  pub IsDerived-take :
      (r : EventRecord) (events : List EventRecord) (state : List V × (String → Option O))
      → IsDerived p version_of events state.0
      → ((v : V) → version_of r ≡ some v → In r (insert_or_ignore record_id r events))
      → ((v w : V) → version_of r ≡ some v → In w state.0 → p.event_id w ≢ p.event_id v)
      → IsDerived p version_of (insert_or_ignore record_id r events) (take p (version_of r) state).0
  IsDerived-take r events state derived new apart = record { to = to; back = back }
    where
      to :
          (a : V)
          → In a (take p (version_of r) state).0
          → (s : EventRecord) × In s (insert_or_ignore record_id r events) × (version_of s ≡ some a)
      to a i = split (take-cases p (version_of r) state a i)
        where
          split :
              In a state.0 ⊎ (version_of r ≡ some a)
              → (s : EventRecord) × In s (insert_or_ignore record_id r events)
                × (version_of s ≡ some a)
          split (inl j) =
              let (s, k, e) = derived.to a j in (s, In-insert_or_ignore record_id s r events k, e)
          split (inr e) = (r, new a e, e)

      kept : (o : Option V) (a : V) → In a state.0 → In a (take p o state).0
      kept none a i = i
      kept (some v) a i = In-insert_or_ignore p.event_id a v state.0 i

      taken : (o : Option V) (a : V) → version_of r ≡ o → o ≡ some a → In a (take p o state).0
      taken none a q e = absurd (cc e)
      taken (some v) a q e =
          let (b, i, same) = insert_or_ignore_has p.event_id v state.0 in
          found b i same (insert_or_ignore_cases p.event_id b v state.0 i)
        where
          found :
              (b : V)
              → In b (insert_or_ignore p.event_id v state.0)
              → p.event_id b ≡ p.event_id v
              → In b state.0 ⊎ (b ≡ v)
              → In a (insert_or_ignore p.event_id v state.0)
          found b i same (inl j) = absurd (apart v b q j same)
          found b i same (inr same_row) =
              let va : v ≡ a = cc e in
              subst (λ c. In c (insert_or_ignore p.event_id v state.0)) (same_row ∙ va) i

      back :
          (a : V) (s : EventRecord)
          → In s (insert_or_ignore record_id r events)
          → version_of s ≡ some a
          → In a (take p (version_of r) state).0
      back a s i e = split (insert_or_ignore_cases record_id s r events i)
        where
          split : In s events ⊎ (s ≡ r) → In a (take p (version_of r) state).0
          split (inl j) = kept (version_of r) a (derived.back a s j e)
          split (inr q) = taken (version_of r) a refl (ap version_of (sym q) ∙ e)
