-- ===== src/Db/Disputes.antt =====
-- `dispute_versions`, the history, and `disputes`, the projection of it (src/db/repo/disputes.rs).
pub mod Projection
use bestiario.Prelude.{String, Option, none, some, and_then, is_some, List, map}
use bestiario.Prelude.Int.{ℤ}
use bestiario.Prelude.Best.{first}
use bestiario.Prelude.Lists.{select, collect}
use bestiario.Prelude.Map.{distinct}
use bestiario.Db.Table.{newer, insert_or_ignore}
use bestiario.Db.Orders.{greatest}
use bestiario.Ingest.Parse.Dispute.{Status, Initiator, DisputeVersion}

-- A row of `disputes`.
pub record Dispute : Type 0 where
  pub dispute_id : String
  pub pubkey : String
  pub opened_at : Option ℤ
  pub last_updated_at : ℤ
  pub final_status : Status
  pub initiator : Option Initiator

unfoldable pub insert_version : DisputeVersion → List DisputeVersion → List DisputeVersion
insert_version version versions = insert_or_ignore (λ v. v.event_id) version versions

-- `ORDER BY created_at DESC, event_id ASC LIMIT 1`
abbrev pub latest : List DisputeVersion → Option DisputeVersion
latest = first (newer (λ v. v.created_at) (λ v. v.event_id))

abbrev pub has_opened_at : DisputeVersion → Option DisputeVersion
has_opened_at version = and_then version.opened_at (λ _. some version)

abbrev pub has_initiator : DisputeVersion → Option DisputeVersion
has_initiator version = and_then version.initiator (λ _. some version)

-- The row that the versions of one dispute make: `latest` joined with `known`.
unfoldable pub row : List DisputeVersion → Option Dispute
row versions = and_then (latest versions) λ newest.
    and_then (greatest (collect (λ v. some v.created_at) versions)) λ last_updated_at.
      some (record {
        dispute_id = newest.dispute_id;
        pubkey = newest.pubkey;
        opened_at = and_then (latest (collect has_opened_at versions)) (λ v. v.opened_at);
        last_updated_at = last_updated_at;
        final_status = newest.status;
        initiator = and_then (latest (collect has_initiator versions)) (λ v. v.initiator);
      })

-- `SELECT DISTINCT dispute_id FROM dispute_versions ORDER BY dispute_id`
unfoldable pub ids : List DisputeVersion → List String
unfolding distinct
ids versions = distinct (map (λ v. v.dispute_id) versions)
