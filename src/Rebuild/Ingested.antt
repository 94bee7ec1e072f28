-- ===== src/Rebuild/Ingested.antt =====
-- One event stored, and where the versions come from (src/ingest/pipeline.rs).
use bestiario.Prelude.{
  String, ◌≡◌, ◌≢◌, refl, sym, ap, ◌∙◌, ◌⊎◌, inl, inr, false, Option, none, some, and_then, List,
  subst, ◌==◌, ==_iff,
}
use bestiario.Prelude.Int.{ℤ}
use bestiario.Prelude.Lists.{In, any-In}
use bestiario.Prelude.Result.{Result, ok, err}
use bestiario.Ingest.Event.{Event, Sdk, ReadsBack}
use bestiario.Ingest.Parse.Order.{OrderVersion}
use bestiario.Ingest.Parse.Dispute.{DisputeVersion}
use bestiario.Ingest.Outcome.{Rejection}
use bestiario.Ingest.Persist.{Parsed, order, dispute, parse}
use bestiario.Db.State.{Db}
use bestiario.Db.Table.{Table, insert_or_ignore, insert_or_ignore_cases, insert_or_ignore-In}
use bestiario.Db.Events.{EventRecord, record_id, new_record, exists}
use bestiario.Db.Projection.{Projection}
use bestiario.Db.Orders.Projection.{orders_projection}
use bestiario.Db.Disputes.Projection.{disputes_projection}
use bestiario.Rebuild.Replay.{take}
use bestiario.Rebuild.Derived.{IsDerived}
use bestiario.Rebuild.Tables.{
  orders_of, disputes_of, order_in, dispute_in, order_from, dispute_from,
}
use bestiario.Rebuild.Recorded.{parse-IsOf, IsDerived-take}

pub record IsRecorded (sdk : Sdk) (db : Db) : Type 0 where
  pub faithful :
      (r : EventRecord)
      → In r db.events
      → (e : Event) × (sdk.from_json r.raw_json ≡ some e) × (e.id ≡ r.id)
  pub orders : IsDerived orders_projection (order_from sdk) db.events db.order_versions
  pub disputes : IsDerived disputes_projection (dispute_from sdk) db.events db.dispute_versions

order_in-id :
    (sdk : Sdk) (event : Event) (v : OrderVersion)
    → order_in (parse sdk event) ≡ some v
    → v.event_id ≡ event.id
order_in-id sdk event v h = go (parse sdk event) refl h
  where
    go :
        (r : Result Rejection Parsed)
        → parse sdk event ≡ r
        → order_in r ≡ some v
        → v.event_id ≡ event.id
    go (ok (order w)) e q =
        let wv : w ≡ v = cc q in sym (ap (λ x. x.event_id) wv) ∙ parse-IsOf sdk event (order w) e
    go (ok _) e q = absurd (cc q)
    go (err rejection) e q = absurd (cc q)

dispute_in-id :
    (sdk : Sdk) (event : Event) (v : DisputeVersion)
    → dispute_in (parse sdk event) ≡ some v
    → v.event_id ≡ event.id
dispute_in-id sdk event v h = go (parse sdk event) refl h
  where
    go :
        (r : Result Rejection Parsed)
        → parse sdk event ≡ r
        → dispute_in r ≡ some v
        → v.event_id ≡ event.id
    go (ok (dispute w)) e q =
        let wv : w ≡ v = cc q in sym (ap (λ x. x.event_id) wv) ∙ parse-IsOf sdk event (dispute w) e
    go (ok _) e q = absurd (cc q)
    go (err rejection) e q = absurd (cc q)

Faithful : Sdk → List EventRecord → Type 0
Faithful sdk events =
    (r : EventRecord)
    → In r events
    → (e : Event) × (sdk.from_json r.raw_json ≡ some e) × (e.id ≡ r.id)

module _ (sdk : Sdk) (event : Event) (relay_url : String) (now : ℤ)
    (reads_back : ReadsBack sdk event) where
  Faithful-ingested :
      (events : List EventRecord)
      → Faithful sdk events
      → Faithful sdk (insert_or_ignore record_id (new_record sdk event relay_url now) events)
  unfolding Faithful new_record
  Faithful-ingested events f r i =
      split (insert_or_ignore_cases record_id r (new_record sdk event relay_url now) events i)
    where
      split :
          In r events ⊎ (r ≡ new_record sdk event relay_url now)
          → (e : Event) × (sdk.from_json r.raw_json ≡ some e) × (e.id ≡ r.id)
      split (inl j) = f r j
      split (inr q) =
          (event, ap (λ x. sdk.from_json x.raw_json) q ∙ reads_back, sym (ap (λ x. x.id) q))

  -- The versions of one table, where `pick` takes them from a parsed event.
  module _ {V O : Type 0} (p : Projection V O) (pick : Result Rejection Parsed → Option V)
      (pick-id : (e : Event) (v : V) → pick (parse sdk e) ≡ some v → p.event_id v ≡ e.id) where
    version_of : EventRecord → Option V
    version_of r = and_then (sdk.from_json r.raw_json) λ e. pick (parse sdk e)

    version_of-record : version_of (new_record sdk event relay_url now) ≡ pick (parse sdk event)
    unfolding version_of new_record
    version_of-record = ap (λ o. and_then o λ e. pick (parse sdk e)) reads_back

    version_of-id :
        (r : EventRecord) (w : V) (e : Event)
        → sdk.from_json r.raw_json ≡ some e
        → e.id ≡ r.id
        → version_of r ≡ some w
        → p.event_id w ≡ r.id
    unfolding version_of
    version_of-id r w e j same h =
        pick-id e w (sym (ap (λ o. and_then o λ e. pick (parse sdk e)) j) ∙ h) ∙ same

    IsDerived-ingested :
        (events : List EventRecord) (state : List V × Table O)
        → Faithful sdk events
        → IsDerived p version_of events state.0
        → (exists event.id events ≡ false) ⊎ (pick (parse sdk event) ≡ none)
        → IsDerived p version_of
            (insert_or_ignore record_id (new_record sdk event relay_url now) events)
            (take p (pick (parse sdk event)) state).0
    unfolding Faithful exists new_record
    IsDerived-ingested events state f derived fresh =
        subst
          (λ o. IsDerived p version_of (insert_or_ignore record_id row events) (take p o state).0)
          version_of-record
          (IsDerived-take p version_of row events state derived (new fresh) (apart fresh))
      where
        row : EventRecord
        row = new_record sdk event relay_url now

        new :
            (exists event.id events ≡ false) ⊎ (pick (parse sdk event) ≡ none)
            → (v : V) → version_of row ≡ some v
            → In row (insert_or_ignore record_id row events)
        new (inl e) v h = insert_or_ignore-In record_id row events e
        new (inr e) v h = let q : none ≡ some v = sym e ∙ sym version_of-record ∙ h in absurd (cc q)

        apart :
            (exists event.id events ≡ false) ⊎ (pick (parse sdk event) ≡ none)
            → (v w : V) → version_of row ≡ some v
            → In w state.0
            → p.event_id w ≢ p.event_id v
        apart (inr e) v w h i same =
            let q : none ≡ some v = sym e ∙ sym version_of-record ∙ h in absurd (cc q)
        apart (inl e) v w h i same =
            let (s, j, t) = derived.to w i in
            let (x, read, xs) = f s j in
            let q : s.id ≡ event.id =
              sym (version_of-id s w x read xs t)
              ∙ same
              ∙ pick-id event v (sym version_of-record ∙ h) in
            let again = any-In (λ r. r.id == event.id) s events j ((==_iff s.id event.id).1 q) in
            absurd (cc (e, again))

  pub ingested-IsRecorded :
      (db db' : Db)
      → IsRecorded sdk db
      → db'.events ≡ insert_or_ignore record_id (new_record sdk event relay_url now) db.events
      → orders_of db' ≡ take orders_projection (order_in (parse sdk event)) (orders_of db)
      → disputes_of db' ≡ take disputes_projection (dispute_in (parse sdk event)) (disputes_of db)
      → (exists event.id db.events ≡ false)
        ⊎ ((order_in (parse sdk event) ≡ none) × (dispute_in (parse sdk event) ≡ none))
      → IsRecorded sdk db'
  unfolding Faithful version_of
  ingested-IsRecorded db db' recorded e o d fresh = record {
    faithful = subst (Faithful sdk) (sym e) (Faithful-ingested db.events recorded.faithful);
    orders =
        subst (λ rows. IsDerived orders_projection (order_from sdk) rows db'.order_versions) (sym e)
          (subst
            (λ s.
              IsDerived orders_projection (order_from sdk)
                (insert_or_ignore record_id row db.events) s.0)
            (sym o)
            (IsDerived-ingested orders_projection order_in (order_in-id sdk) db.events
              (orders_of db) recorded.faithful recorded.orders (order_fresh fresh)));
    disputes =
        subst (λ rows. IsDerived disputes_projection (dispute_from sdk) rows db'.dispute_versions)
          (sym e)
          (subst
            (λ s.
              IsDerived disputes_projection (dispute_from sdk)
                (insert_or_ignore record_id row db.events) s.0)
            (sym d)
            (IsDerived-ingested disputes_projection dispute_in (dispute_in-id sdk) db.events
              (disputes_of db) recorded.faithful recorded.disputes (dispute_fresh fresh)));
  }
    where
      row : EventRecord
      row = new_record sdk event relay_url now

      order_fresh :
          (exists event.id db.events ≡ false)
            ⊎ ((order_in (parse sdk event) ≡ none) × (dispute_in (parse sdk event) ≡ none))
          → (exists event.id db.events ≡ false) ⊎ (order_in (parse sdk event) ≡ none)
      order_fresh (inl q) = inl q
      order_fresh (inr (q, r)) = inr q

      dispute_fresh :
          (exists event.id db.events ≡ false)
            ⊎ ((order_in (parse sdk event) ≡ none) × (dispute_in (parse sdk event) ≡ none))
          → (exists event.id db.events ≡ false) ⊎ (dispute_in (parse sdk event) ≡ none)
      dispute_fresh (inl q) = inl q
      dispute_fresh (inr (q, r)) = inr r
