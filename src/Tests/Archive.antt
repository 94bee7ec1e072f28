-- ===== src/Tests/Archive.antt =====
-- Ingestion and the archive, at concrete events.
use bestiario.Prelude.{true, false, ◌≡◌, ◌≢◌, ◌⊎◌, refl, ◌↔◌, some, none, [], ◌∷◌, eq_iff}
use bestiario.Prelude.Int.{ℤ, pos}
use bestiario.Network.{mainnet, from_wire, as_str, from_wire_exact}
use bestiario.Ingest.Outcome.{stored}
use bestiario.Prelude.Result.{ok}
use bestiario.Ingest.Parse.Order
use bestiario.Ingest.Parse.Dispute
use bestiario.Ingest.Parse.Words.{statuses_exact}
use bestiario.Ingest.Pipeline.{ingest}
use bestiario.Ingest.Pipeline.Consistency.{IsConsistent, empty-IsConsistent, ingest-IsConsistent}
use bestiario.Ingest.Pipeline.Admission.{IsAdmissible, ingest-IsAdmissible}
use bestiario.Ingest.Pipeline.Vouched.{IsVouched, empty-IsVouched, ingest-IsVouched}
use bestiario.Ingest.Pipeline.Again.{SameContent, ingest_again}
use bestiario.Db.Cursors.{advance, advance_comm}
use bestiario.Db.Instances.{upsert}
use bestiario.Db.Instances.Order.{upsert_comm, upsert_tie}
use bestiario.Db.Projection.{project}
use bestiario.Db.Orders.Projection.{orders_projection, order_row_order_free}
use bestiario.Db.Disputes.Projection.{disputes_projection, dispute_row_order_free}
use bestiario.Db.State.{Db, empty}
use bestiario.Tests.Fixtures.{
  rates_event, sdk, policy, relay, success_event, pending_version, success_version,
  initiated_version, settled_version, swapped, IsKeyed-pair,
}

from_wire_exact_example : (from_wire "signet" ≡ some mainnet) ↔ ("signet" ≡ as_str mainnet)
from_wire_exact_example = from_wire_exact "signet" mainnet

abbrev now : ℤ
now = pos 1700000010

abbrev after_success : Db
after_success = (ingest sdk policy success_event relay now empty).0

ingest-IsConsistent_example : IsConsistent (ingest sdk policy success_event relay now empty).0
ingest-IsConsistent_example =
    ingest-IsConsistent sdk policy success_event relay now empty empty-IsConsistent

ingest-IsAdmissible_example :
    ((ingest sdk policy success_event relay now empty).0 ≡ empty)
    ⊎ IsAdmissible sdk policy empty success_event
ingest-IsAdmissible_example = ingest-IsAdmissible sdk policy success_event relay now empty

ingest_again_example :
    let db = (ingest sdk policy success_event relay now empty).0 in
    ((ingest sdk policy success_event "wss://relay.damus.io" now db).1 ≢ stored)
    × SameContent db (ingest sdk policy success_event "wss://relay.damus.io" now db).0
ingest_again_example =
    ingest_again sdk policy success_event relay "wss://relay.damus.io" now now empty

order_row_order_free_example :
    project orders_projection (pending_version ∷ success_version ∷ []) "order-1"
    ≡ project orders_projection (success_version ∷ pending_version ∷ []) "order-1"
order_row_order_free_example =
    order_row_order_free (pending_version ∷ success_version ∷ [])
      (success_version ∷ pending_version ∷ []) "order-1" (swapped pending_version success_version)
      (IsKeyed-pair (λ v. v.event_id) pending_version success_version (λ e. cc))

dispute_row_order_free_example :
    project disputes_projection (initiated_version ∷ settled_version ∷ []) "dispute-1"
    ≡ project disputes_projection (settled_version ∷ initiated_version ∷ []) "dispute-1"
dispute_row_order_free_example =
    dispute_row_order_free (initiated_version ∷ settled_version ∷ [])
      (settled_version ∷ initiated_version ∷ []) "dispute-1"
      (swapped initiated_version settled_version)
      (IsKeyed-pair (λ v. v.event_id) initiated_version settled_version (λ e. cc))

advance_comm_example :
    advance relay 38383 (pos 5) (pos 9) (advance relay 38383 (pos 7) (pos 8) (λ url kind. none))
    ≡ advance relay 38383 (pos 7) (pos 8) (advance relay 38383 (pos 5) (pos 9) (λ url kind. none))
advance_comm_example =
    advance_comm relay relay 38383 38383 (pos 5) (pos 7) (pos 9) (pos 8) (λ url kind. none)

upsert_comm_example :
    upsert "ab" (some "one") (pos 5) (upsert "ab" (some "two") (pos 7) (λ k. none))
    ≡ upsert "ab" (some "two") (pos 7) (upsert "ab" (some "one") (pos 5) (λ k. none))
upsert_comm_example =
    upsert_comm "ab" "ab" (some "one") (some "two") (pos 5) (pos 7) (λ k. none)
      (λ same e. absurd (five-seven e))
  where
    five-seven : pos 5 ≢ pos 7
    five-seven e = cc

upsert_tie_example :
    upsert "ab" (some "one") (pos 5) (upsert "ab" (some "two") (pos 5) (λ k. none))
    ≢ upsert "ab" (some "two") (pos 5) (upsert "ab" (some "one") (pos 5) (λ k. none))
upsert_tie_example =
    upsert_tie "ab" "one" "two" (pos 5) (λ k. none) refl (λ e. apart ((eq_iff "one" "two").1 e))
  where
    apart : false ≢ true
    apart h = cc

statuses_exact_example :
    ((Order.parse_status "success" ≡ ok Order.success)
      ↔ ("success" ≡ Order.status_str Order.success))
    × ((Dispute.parse_status "success" ≡ ok Dispute.settled)
        ↔ ("success" ≡ Dispute.status_str Dispute.settled))
statuses_exact_example = statuses_exact "success" Order.success Dispute.settled

ingest-IsVouched_example :
    IsVouched sdk policy (ingest sdk policy rates_event relay now after_success).0
ingest-IsVouched_example =
    ingest-IsVouched sdk policy rates_event relay now after_success
      (ingest-IsVouched sdk policy success_event relay now empty (empty-IsVouched sdk policy))
