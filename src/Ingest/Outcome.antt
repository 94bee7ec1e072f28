-- ===== src/Ingest/Outcome.antt =====
-- What became of an event, and the counts of a run (src/ingest/pipeline.rs).
use bestiario.Prelude.{ℕ, String, Option, ◌+◌}
use bestiario.Network.{Network}
use bestiario.Ingest.Parse.Tags.{ParseError}

pub data Rejection : Type 0 where
  invalid_signature : Rejection
  unknown_instance : String → Rejection
  unvouched_publisher : String → ℕ → Rejection
  other_platform : Option String → Rejection
  other_network : Network → Rejection
  unsupported_kind : ℕ → Rejection
  malformed : ParseError → Rejection

pub data IngestOutcome : Type 0 where
  stored duplicate redundant : IngestOutcome
  rejected : Rejection → IngestOutcome

pub record Counts : Type 0 where
  pub stored : ℕ
  pub duplicate : ℕ
  pub redundant : ℕ
  pub rejected : ℕ

abbrev pub zero_counts : Counts
zero_counts = record { stored = 0; duplicate = 0; redundant = 0; rejected = 0 }

unfoldable pub count : Counts → IngestOutcome → Counts
count c stored = record c { stored = c.stored + 1 }
count c duplicate = record c { duplicate = c.duplicate + 1 }
count c redundant = record c { redundant = c.redundant + 1 }
count c (rejected r) = record c { rejected = c.rejected + 1 }

unfoldable pub total : Counts → ℕ
total c = c.stored + c.duplicate + c.redundant + c.rejected

-- `AddAssign`
unfoldable pub add : Counts → Counts → Counts
add a b = record {
  stored = a.stored + b.stored;
  duplicate = a.duplicate + b.duplicate;
  redundant = a.redundant + b.redundant;
  rejected = a.rejected + b.rejected;
}
