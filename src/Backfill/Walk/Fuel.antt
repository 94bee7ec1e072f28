-- ===== src/Backfill/Walk/Fuel.antt =====
-- More fuel than a walk needs changes nothing (src/commands/backfill.rs).
use bestiario.Prelude.{
  ℕ, zero, suc, ◌≤◌, ◌≡◌, some, String, List, [], ◌∷◌, arith, and_then-some, Option-cases, inl, inr,
}
use bestiario.Prelude.Int.{ℤ}
use bestiario.Ingest.Outcome.{Counts, zero_counts, add}
use bestiario.Db.State.{Db}
use bestiario.Backfill.{ingest_all, next_until}
use bestiario.Backfill.Walk.{
  Backfill, Request, page, walk_from, walk, walk_kinds, walk_relays, vouched,
}

module _ (backfill : Backfill) where
  walk_from-more :
      (request : Request) (fuel more : ℕ) (until : ℤ) (db : Db) (counts : Counts)
      (out : Db × Counts)
      → fuel ≤ more
      → walk_from backfill request fuel until db counts ≡ some out
      → walk_from backfill request more until db counts ≡ some out
  unfolding walk_from
  walk_from-more request zero more until db counts out h e = cc
  walk_from-more request (suc fuel) zero until db counts out h e = absurd (omega arith)
  walk_from-more request (suc fuel) (suc more) until db counts out h e =
      elim (Option-cases (page backfill request until)) [
        | inl p ↦ rw (walk_from, p) (rw (walk_from, p) at e)
        | inr (events, p) ↦
            rw (walk_from, p)
              (walk_from-more request fuel more (next_until until events)
                (ingest_all backfill.sdk backfill.policy request.relay backfill.now events db).0
                (add counts
                  (ingest_all backfill.sdk backfill.policy request.relay backfill.now events db).1)
                out (omega arith) (rw (walk_from, p) at e))
      ]

  walk_kinds-more :
      (fuel more : ℕ) (relay : String) (kinds : List ℕ) (db : Db) (walked : Counts)
      (out : Db × Counts)
      → fuel ≤ more
      → walk_kinds backfill fuel relay kinds db walked ≡ some out
      → walk_kinds backfill more relay kinds db walked ≡ some out
  unfolding walk_kinds walk
  walk_kinds-more fuel more relay [] db walked out h e = e
  walk_kinds-more fuel more relay (kind ∷ kinds) db walked out h e =
      let request : Request = record {
        relay = relay;
        kind = kind;
        vouched = vouched backfill db;
      } in
      let ((mid, counts), q, rest) =
        and_then-some (walk_from backfill request fuel backfill.range.until db zero_counts) e in
      let same =
        walk_from-more request fuel more backfill.range.until db zero_counts (mid, counts) h q in
      rw same (walk_kinds-more fuel more relay kinds mid (add walked counts) out h rest)

  pub walk_relays-more :
      (fuel more : ℕ) (relays : List String) (kinds : List ℕ) (db : Db) (walked : Counts)
      (out : Db × Counts)
      → fuel ≤ more
      → walk_relays backfill fuel relays kinds db walked ≡ some out
      → walk_relays backfill more relays kinds db walked ≡ some out
  unfolding walk_relays
  walk_relays-more fuel more [] kinds db walked out h e = e
  walk_relays-more fuel more (relay ∷ relays) kinds db walked out h e =
      let ((mid, counts), q, rest) =
        and_then-some (walk_kinds backfill fuel relay kinds db zero_counts) e in
      let same = walk_kinds-more fuel more relay kinds db zero_counts (mid, counts) h q in
      rw same (walk_relays-more fuel more relays kinds mid (add walked counts) out h rest)
