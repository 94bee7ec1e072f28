-- ===== src/Ingest/Parse/Words.antt =====
-- The words that the enumerations of orders and disputes are written as
-- (src/ingest/parse/order.rs, src/ingest/parse/dispute.rs).
use bestiario.Prelude.{String, ◌≡◌, ◌↔◌, refl, arith, eq_iff}
use bestiario.Prelude.Result.{ok}
use bestiario.Ingest.Parse.Order
use bestiario.Ingest.Parse.Dispute

order_status_exact :
    (text : String) (status : Order.Status)
    → (Order.parse_status text ≡ ok status) ↔ (text ≡ Order.status_str status)
unfolding Order.parse_status Order.status_str
order_status_exact text status = (there status, λ h. rw h (back status))
  where
    there : (s : Order.Status) → Order.parse_status text ≡ ok s → text ≡ Order.status_str s
    there s h = ground (
      arith,
      eq_iff text "pending",
      eq_iff text "in-progress",
      eq_iff text "success",
      eq_iff text "canceled",
    )

    back : (s : Order.Status) → Order.parse_status (Order.status_str s) ≡ ok s
    back Order.pending = refl
    back Order.in_progress = refl
    back Order.success = refl
    back Order.canceled = refl

dispute_status_exact :
    (text : String) (status : Dispute.Status)
    → (Dispute.parse_status text ≡ ok status) ↔ (text ≡ Dispute.status_str status)
unfolding Dispute.parse_status Dispute.status_str
dispute_status_exact text status = (there status, λ h. rw h (back status))
  where
    there : (s : Dispute.Status) → Dispute.parse_status text ≡ ok s → text ≡ Dispute.status_str s
    there s h = ground (
      arith,
      eq_iff text "initiated",
      eq_iff text "in-progress",
      eq_iff text "seller-refunded",
      eq_iff text "settled",
      eq_iff text "released",
      eq_iff text "cooperatively-canceled",
    )

    back : (s : Dispute.Status) → Dispute.parse_status (Dispute.status_str s) ≡ ok s
    back Dispute.initiated = refl
    back Dispute.in_progress = refl
    back Dispute.seller_refunded = refl
    back Dispute.settled = refl
    back Dispute.released = refl
    back Dispute.cooperatively_canceled = refl

-- A text parses as a status of an order exactly where it is the word that is written for that
-- status, and as a status of a dispute exactly where it is the word that is written for that one.
pub statuses_exact :
    (text : String) (order_status : Order.Status) (dispute_status : Dispute.Status)
    → ((Order.parse_status text ≡ ok order_status) ↔ (text ≡ Order.status_str order_status))
      × ((Dispute.parse_status text ≡ ok dispute_status)
          ↔ (text ≡ Dispute.status_str dispute_status))
statuses_exact text order_status dispute_status =
    (order_status_exact text order_status, dispute_status_exact text dispute_status)
