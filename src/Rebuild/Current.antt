-- ===== src/Rebuild/Current.antt =====
-- The projections after a rebuild (src/commands/rebuild.rs).
use bestiario.Prelude.{
  if◌then◌else◌, ℕ, String, ◌≡◌, refl, sym, ap, ◌∙◌, inl, Bool, true, false, none, List, [], ◌∷◌,
  map, subst,
}
use bestiario.Prelude.Lists.{In, IsKeyed, In-map}
use bestiario.Prelude.Map.{In-distinct}
use bestiario.Ingest.Event.{Sdk}
use bestiario.Ingest.Parse.Order.{OrderVersion}
use bestiario.Ingest.Parse.Dispute.{DisputeVersion}
use bestiario.Db.State.{Db}
use bestiario.Db.Table.{Table}
use bestiario.Db.Projection.{IsCurrent}
use bestiario.Db.DevFees
use bestiario.Db.Orders
use bestiario.Db.Orders.{Order}
use bestiario.Db.Orders.Projection.{orders_projection}
use bestiario.Db.Orders.Projection as OrdersProjection
use bestiario.Db.Disputes
use bestiario.Db.Disputes.{Dispute}
use bestiario.Db.Disputes.Projection.{disputes_projection}
use bestiario.Db.Disputes.Projection as DisputesProjection
use bestiario.Rebuild.{
  Rebuilt, nothing_rebuilt, all, clear_versions, clear_projections, replay_all, sweep_orders,
  sweep_disputes, sweep_fees, swept, rebuild,
}
use bestiario.Rebuild.Replay.{take_all, take_all-IsFresh, sweep, sweep-IsCurrent}
use bestiario.Rebuild.Tables.{
  orders_of, disputes_of, order_from, dispute_from, replay_all-orders, replay_all-disputes,
}

sweep_orders-orders :
    (ids : List String) (db : Db)
    → orders_of (sweep_orders ids db)
      ≡ (db.order_versions, sweep orders_projection ids db.order_versions db.orders)
unfolding OrdersProjection.refresh_projection
sweep_orders-orders [] db = refl
sweep_orders-orders (id ∷ ids) db =
    sweep_orders-orders ids
      (record db { orders = OrdersProjection.refresh_projection id db.order_versions db.orders })

sweep_orders-disputes :
    (ids : List String) (db : Db) → disputes_of (sweep_orders ids db) ≡ disputes_of db
sweep_orders-disputes [] db = refl
sweep_orders-disputes (id ∷ ids) db =
    sweep_orders-disputes ids
      (record db { orders = OrdersProjection.refresh_projection id db.order_versions db.orders })

sweep_disputes-disputes :
    (ids : List String) (db : Db)
    → disputes_of (sweep_disputes ids db)
      ≡ (db.dispute_versions, sweep disputes_projection ids db.dispute_versions db.disputes)
unfolding DisputesProjection.refresh_projection
sweep_disputes-disputes [] db = refl
sweep_disputes-disputes (id ∷ ids) db = sweep_disputes-disputes ids (record db {
  disputes = DisputesProjection.refresh_projection id db.dispute_versions db.disputes;
})

sweep_disputes-orders :
    (ids : List String) (db : Db) → orders_of (sweep_disputes ids db) ≡ orders_of db
sweep_disputes-orders [] db = refl
sweep_disputes-orders (id ∷ ids) db = sweep_disputes-orders ids (record db {
  disputes = DisputesProjection.refresh_projection id db.dispute_versions db.disputes;
})

sweep_fees-orders : (ids : List String) (db : Db) → orders_of (sweep_fees ids db) ≡ orders_of db
sweep_fees-orders [] db = refl
sweep_fees-orders (id ∷ ids) db = sweep_fees-orders ids _

sweep_fees-disputes :
    (ids : List String) (db : Db) → disputes_of (sweep_fees ids db) ≡ disputes_of db
sweep_fees-disputes [] db = refl
sweep_fees-disputes (id ∷ ids) db = sweep_fees-disputes ids _

abbrev swept_orders : List OrderVersion × Table Order → List OrderVersion × Table Order
swept_orders (versions, table) =
    (versions, sweep orders_projection (Orders.ids versions) versions table)

abbrev swept_disputes : List DisputeVersion × Table Dispute → List DisputeVersion × Table Dispute
swept_disputes (versions, table) =
    (versions, sweep disputes_projection (Disputes.ids versions) versions table)

swept-orders : (state : Db × Rebuilt) → orders_of (swept state).0 ≡ swept_orders (orders_of state.0)
unfolding swept
swept-orders (db, n) =
    let db1 = sweep_orders (Orders.ids db.order_versions) db in
    let db2 = sweep_disputes (Disputes.ids db.dispute_versions) db1 in
    sweep_fees-orders (DevFees.order_ids db2.dev_fees) db2
    ∙ sweep_disputes-orders (Disputes.ids db.dispute_versions) db1
    ∙ sweep_orders-orders (Orders.ids db.order_versions) db

swept-disputes :
    (state : Db × Rebuilt) → disputes_of (swept state).0 ≡ swept_disputes (disputes_of state.0)
unfolding swept
swept-disputes (db, n) =
    let db1 = sweep_orders (Orders.ids db.order_versions) db in
    let db2 = sweep_disputes (Disputes.ids db.dispute_versions) db1 in
    sweep_fees-disputes (DevFees.order_ids db2.dev_fees) db2
    ∙ sweep_disputes-disputes (Disputes.ids db.dispute_versions) db1
    ∙ ap (λ s. (s.0, sweep disputes_projection (Disputes.ids db.dispute_versions) s.0 s.1))
        (sweep_orders-disputes (Orders.ids db.order_versions) db)

-- The versions at the start of the replay.
abbrev pub kept : {V : Type 0} → Bool → List V → List V
kept from_raw versions = if from_raw then [] else versions

cleared-orders :
    (from_raw : Bool) (db : Db)
    → orders_of (clear_projections (clear_versions from_raw db))
      ≡ (kept from_raw db.order_versions, λ k. none)
unfolding clear_projections clear_versions
cleared-orders true db = refl
cleared-orders false db = refl

cleared-disputes :
    (from_raw : Bool) (db : Db)
    → disputes_of (clear_projections (clear_versions from_raw db))
      ≡ (kept from_raw db.dispute_versions, λ k. none)
unfolding clear_projections clear_versions
cleared-disputes true db = refl
cleared-disputes false db = refl

cleared-events :
    (from_raw : Bool) (db : Db)
    → (clear_projections (clear_versions from_raw db)).events ≡ db.events
unfolding clear_projections clear_versions
cleared-events true db = refl
cleared-events false db = refl

-- The orders after a rebuild, as a replay of all archived events and a sweep.
pub rebuild-orders :
    (sdk : Sdk) (from_raw : Bool) (db : Db)
    → orders_of (rebuild sdk from_raw db).0
      ≡ swept_orders (
          take_all orders_projection
            (map (order_from sdk) (all db.events))
            (kept from_raw db.order_versions, λ k. none))
unfolding rebuild
rebuild-orders sdk from_raw db =
    let cleared = clear_projections (clear_versions from_raw db) in
    swept-orders (replay_all sdk (all cleared.events) (cleared, nothing_rebuilt))
    ∙ ap swept_orders (
        replay_all-orders sdk (all cleared.events) (cleared, nothing_rebuilt)
        ∙ ap (λ s. take_all orders_projection (map (order_from sdk) (all cleared.events)) s)
            (cleared-orders from_raw db)
        ∙ ap
            (λ rows.
              take_all orders_projection (map (order_from sdk) (all rows))
                (kept from_raw db.order_versions, λ k. none))
            (cleared-events from_raw db))

pub rebuild-disputes :
    (sdk : Sdk) (from_raw : Bool) (db : Db)
    → disputes_of (rebuild sdk from_raw db).0
      ≡ swept_disputes (
          take_all disputes_projection
            (map (dispute_from sdk) (all db.events))
            (kept from_raw db.dispute_versions, λ k. none))
unfolding rebuild
rebuild-disputes sdk from_raw db =
    let cleared = clear_projections (clear_versions from_raw db) in
    swept-disputes (replay_all sdk (all cleared.events) (cleared, nothing_rebuilt))
    ∙ ap swept_disputes (
        replay_all-disputes sdk (all cleared.events) (cleared, nothing_rebuilt)
        ∙ ap (λ s. take_all disputes_projection (map (dispute_from sdk) (all cleared.events)) s)
            (cleared-disputes from_raw db)
        ∙ ap
            (λ rows.
              take_all disputes_projection (map (dispute_from sdk) (all rows))
                (kept from_raw db.dispute_versions, λ k. none))
            (cleared-events from_raw db))

kept-IsKeyed :
    {V : Type 0} (from_raw : Bool) (key : V → ℕ) (versions : List V)
    → IsKeyed key versions
    → IsKeyed key (kept from_raw versions)
kept-IsKeyed true key versions keyed = λ a b i j e. absurd i
kept-IsKeyed false key versions keyed = keyed

order_ids-complete :
    (versions : List OrderVersion) (v : OrderVersion)
    → In v versions
    → In v.order_id (Orders.ids versions)
unfolding Orders.ids
order_ids-complete versions v i =
    In-distinct v.order_id (map (λ v. v.order_id) versions) (In-map (λ v. v.order_id) v versions i)

dispute_ids-complete :
    (versions : List DisputeVersion) (v : DisputeVersion)
    → In v versions
    → In v.dispute_id (Disputes.ids versions)
unfolding Disputes.ids
dispute_ids-complete versions v i =
    In-distinct v.dispute_id (map (λ v. v.dispute_id) versions)
      (In-map (λ v. v.dispute_id) v versions i)

-- A rebuild, with or without `--from-raw`, leaves the row of every order and of every dispute as
-- the versions that are stored afterwards project it, whatever the tables `orders` and `disputes`
-- held before, if two stored versions of one event id are the same version.
pub rebuild-IsCurrent :
    (sdk : Sdk) (from_raw : Bool) (db : Db)
    → IsKeyed (λ v. v.event_id) db.order_versions
    → IsKeyed (λ v. v.event_id) db.dispute_versions
    → let db' = (rebuild sdk from_raw db).0 in
      IsCurrent orders_projection db'.order_versions db'.orders
      × IsCurrent disputes_projection db'.dispute_versions db'.disputes
rebuild-IsCurrent sdk from_raw db keyed keyed' = (
  subst (λ s. IsCurrent orders_projection s.0 s.1) (sym (rebuild-orders sdk from_raw db))
      (sweep-IsCurrent orders_projection (Orders.ids os.0) os.0 os.1 (order_ids-complete os.0) (
        take_all-IsFresh orders_projection (map (order_from sdk) (all db.events)) _
          (kept-IsKeyed from_raw (λ v. v.event_id) db.order_versions keyed, λ id. inl refl))),
  subst (λ s. IsCurrent disputes_projection s.0 s.1) (sym (rebuild-disputes sdk from_raw db))
      (sweep-IsCurrent disputes_projection (Disputes.ids ds.0) ds.0 ds.1 (dispute_ids-complete ds.0)
        (take_all-IsFresh disputes_projection (map (dispute_from sdk) (all db.events)) _
          (kept-IsKeyed from_raw (λ v. v.event_id) db.dispute_versions keyed', λ id. inl refl))),
)
  where
    os : List OrderVersion × Table Order
    os =
        take_all orders_projection (map (order_from sdk) (all db.events))
          (kept from_raw db.order_versions, λ k. none)

    ds : List DisputeVersion × Table Dispute
    ds =
        take_all disputes_projection (map (dispute_from sdk) (all db.events))
          (kept from_raw db.dispute_versions, λ k. none)
