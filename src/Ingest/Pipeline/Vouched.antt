-- ===== src/Ingest/Pipeline/Vouched.antt =====
-- Who the stored exchange rates come from (src/ingest/pipeline.rs).
use bestiario.Prelude.{
  String, ◌≡◌, refl, sym, ap, ◌∙◌, ◌⊎◌, inl, inr, Option, none, some, true, Bool-cases, subst,
}
use bestiario.Prelude.Int.{ℤ}
use bestiario.Prelude.Lists.{In}
use bestiario.Prelude.Result.{Result, ok, err}
use bestiario.Ingest.Event.{Event, Sdk}
use bestiario.Ingest.Parse.Rates.{RateSnapshot}
use bestiario.Ingest.Parse.Identity.{instance_name}
use bestiario.Ingest.Outcome.{Rejection}
use bestiario.Ingest.Policy.{Policy, admit, vouched_for, untagged}
use bestiario.Ingest.Persist.{
  Parsed, order, dev_fee, dispute, info, rates_of, relay_list, parse, parsed_heartbeat,
  see_instance, persist_parsed, persist,
}
use bestiario.Ingest.Pipeline.{
  advance, archive, transact, parsed_or_archived, turned_away, judged, ingest,
}
use bestiario.Ingest.Pipeline.Admission.{IsListed, HasTagged, admissible}
use bestiario.Db.Table.{insert_or_ignore_cases}
use bestiario.Db.State.{Db, insert_rates, empty}
use bestiario.Db.Events.{exists, is_redundant}
use bestiario.Ingest.Pipeline.Tagged.{IsFrom, parse-IsFrom, persist_parsed-HasTagged}

-- Each stored snapshot of rates is of a listed instance, or of one with a tagged event in the tables.
abbrev pub IsVouched : Sdk → Policy → Db → Type 0
IsVouched sdk policy db =
    (r : RateSnapshot) → In r db.rates → IsListed sdk policy r.pubkey ⊎ HasTagged db r.pubkey

module _ (sdk : Sdk) (policy : Policy) where
  see_instance-IsVouched :
      (event : Event) (name : Option String) (db : Db)
      → IsVouched sdk policy db
      → IsVouched sdk policy (see_instance event name db)
  unfolding see_instance
  see_instance-IsVouched event none db v = v
  see_instance-IsVouched event (some name) db v = v

  see_instance-HasTagged :
      (event : Event) (name : Option String) (db : Db) (k : String)
      → HasTagged db k
      → HasTagged (see_instance event name db) k
  unfolding see_instance
  see_instance-HasTagged event none db k t = t
  see_instance-HasTagged event (some name) db k t = t

  persist_parsed-IsVouched :
      (event : Event) (parsed : Parsed) (db : Db)
      → IsFrom event parsed
      → (untagged event.kind ≡ true → IsListed sdk policy event.pubkey ⊎ HasTagged db event.pubkey)
      → IsVouched sdk policy db
      → IsVouched sdk policy (persist_parsed parsed db)
  unfolding persist_parsed insert_rates
  persist_parsed-IsVouched event parsed db from vouch v r i = widened (split parsed from i)
    where
      widened :
          IsListed sdk policy r.pubkey ⊎ HasTagged db r.pubkey
          → IsListed sdk policy r.pubkey ⊎ HasTagged (persist_parsed parsed db) r.pubkey
      widened (inl l) = inl l
      widened (inr t) = inr (persist_parsed-HasTagged r.pubkey parsed db t)

      new :
          (snapshot : RateSnapshot)
          → (snapshot.pubkey ≡ event.pubkey) × (untagged event.kind ≡ true)
          → In r db.rates ⊎ (r ≡ snapshot)
          → IsListed sdk policy r.pubkey ⊎ HasTagged db r.pubkey
      new snapshot (same, kind) (inl j) = v r j
      new snapshot (same, kind) (inr q) =
          subst (λ k. IsListed sdk policy k ⊎ HasTagged db k) (sym (ap (λ x. x.pubkey) q ∙ same))
            (vouch kind)

      split :
          (parsed : Parsed)
          → IsFrom event parsed
          → In r (persist_parsed parsed db).rates
          → IsListed sdk policy r.pubkey ⊎ HasTagged db r.pubkey
      split (order x) from i = v r i
      split (dispute x) from i = v r i
      split (dev_fee x) from i = v r i
      split (info x) from i = v r i
      split (relay_list x) from i = v r i
      split (rates_of snapshot) from i =
          new snapshot from (insert_or_ignore_cases (λ x. x.event_id) r snapshot db.rates i)

  module _ (event : Event) (relay_url : String) (now : ℤ) where
    transact-IsVouched :
        (parsed : Parsed) (db : Db)
        → IsFrom event parsed
        → (untagged event.kind ≡ true
            → IsListed sdk policy event.pubkey ⊎ HasTagged db event.pubkey)
        → IsVouched sdk policy db
        → IsVouched sdk policy (transact sdk event relay_url now parsed db).0
    unfolding transact advance persist
    transact-IsVouched parsed db from vouch v =
        elim (Bool-cases (is_redundant sdk db.events db.rates event (parsed_heartbeat parsed))) [
          | inl r ↦ rw r v
          | inr r ↦ elim (Bool-cases (exists event.id db.events)) [
            | inl x ↦ rw (r, x) v
            | inr x ↦
                rw (r, x)
                  (persist_parsed-IsVouched event parsed
                    (see_instance event (instance_name event) (archive sdk event relay_url now db))
                    from (λ k. seen (vouch k))
                    (see_instance-IsVouched event (instance_name event)
                      (archive sdk event relay_url now db) v))
          ]
        ]
      where
        seen :
            IsListed sdk policy event.pubkey ⊎ HasTagged db event.pubkey
            → IsListed sdk policy event.pubkey
              ⊎ HasTagged
                  (see_instance event (instance_name event) (archive sdk event relay_url now db))
                  event.pubkey
        seen (inl l) = inl l
        seen (inr t) = inr (
            see_instance-HasTagged event (instance_name event) (archive sdk event relay_url now db)
              event.pubkey t)

    parsed-IsVouched :
        (result : Result Rejection Parsed) (db : Db)
        → parse sdk event ≡ result
        → (untagged event.kind ≡ true
            → IsListed sdk policy event.pubkey ⊎ HasTagged db event.pubkey)
        → IsVouched sdk policy db
        → IsVouched sdk policy (parsed_or_archived sdk event relay_url now result db).0
    parsed-IsVouched (ok parsed) db e vouch v =
        transact-IsVouched parsed db (parse-IsFrom sdk event parsed e) vouch v
    parsed-IsVouched (err rejection) db e vouch v = v

    judged-IsVouched :
        (a b : Option Rejection) (db : Db)
        → admit sdk policy event ≡ a
        → vouched_for sdk policy db event ≡ b
        → IsVouched sdk policy db
        → IsVouched sdk policy (judged sdk event relay_url now (turned_away a b) db).0
    judged-IsVouched (some r) b db h k v = v
    judged-IsVouched none (some r) db h k v = v
    judged-IsVouched none none db h k v =
        parsed-IsVouched (parse sdk event) db refl (admissible sdk policy db event h k).vouched v

pub empty-IsVouched : (sdk : Sdk) (policy : Policy) → IsVouched sdk policy empty
empty-IsVouched sdk policy r i = absurd i

-- Every call of `ingest` under a policy keeps this: each stored snapshot of exchange rates is of a
-- publisher that the policy lists, or that has a tagged event in the tables.
pub ingest-IsVouched :
    (sdk : Sdk) (policy : Policy) (event : Event) (relay_url : String) (now : ℤ) (db : Db)
    → IsVouched sdk policy db
    → IsVouched sdk policy (ingest sdk policy event relay_url now db).0
unfolding ingest
ingest-IsVouched sdk policy event relay_url now db v =
    judged-IsVouched sdk policy event relay_url now (admit sdk policy event)
      (vouched_for sdk policy db event) db refl refl v
