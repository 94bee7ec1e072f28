-- ===== src/Ingest/Pipeline/Tagged.antt =====
-- What a parsed event says of its publisher, and the tagged events of a publisher in the tables
-- (src/ingest/pipeline.rs).
use bestiario.Prelude.{
  String, ◌≡◌, refl, sym, ap, ◌∙◌, inl, inr, List, Bool, true, false, Bool-cases, ◌==◌, str_eq,
  subst, arith,
}
use bestiario.Prelude.Lists.{In, any, any-In, any-witness, In-map}
use bestiario.Prelude.Result.{ok, err, >>=-after, ok-inj}
use bestiario.Ingest.Event.{Event, Sdk}
use bestiario.Ingest.Parse.Tags.{Parse, expect_kind, required, optional}
use bestiario.Ingest.Parse.Order.{OrderVersion, kind_order, parse_order}
use bestiario.Ingest.Parse.Dispute.{DisputeVersion, kind_dispute, parse_dispute}
use bestiario.Ingest.Parse.DevFee.{kind_dev_fee, parse_dev_fee}
use bestiario.Ingest.Parse.Info.{InstanceInfo, kind_info, parse_info}
use bestiario.Ingest.Parse.Rates.{
  RateSnapshot, kind_rates, expect_identifier, signed_at, claimed_at, parse_content, parse_rates,
}
use bestiario.Ingest.Parse.RelayList.{kind_relay_list, parse_relay_list}
use bestiario.Ingest.Policy.{untagged}
use bestiario.Ingest.Persist.{
  Parsed, order, dev_fee, dispute, info, rates_of, relay_list, parsed_as, parse, persist_parsed,
}
use bestiario.Ingest.Pipeline.Admission.{HasTagged}
use bestiario.Db.Table.{insert_or_ignore, In-insert_or_ignore}
use bestiario.Db.State.{Db, insert_info}
use bestiario.Db.Instances
use bestiario.Db.DevFees
use bestiario.Db.DevFees.{StoredDevFee, flagged, first_paid}
use bestiario.Db.DevFees.Flags.{flagged-fee}
use bestiario.Db.Orders
use bestiario.Db.Disputes

-- A snapshot that parses is of the event's publisher, and of a kind that is not tagged.
abbrev pub IsFrom : Event → Parsed → Type 0
IsFrom event (rates_of snapshot) = (snapshot.pubkey ≡ event.pubkey) × (untagged event.kind ≡ true)
IsFrom event _ = Unit

parse_rates-pubkey :
    (sdk : Sdk) (event : Event) (s : RateSnapshot)
    → parse_rates sdk event ≡ ok s
    → s.pubkey ≡ event.pubkey
unfolding parse_rates
parse_rates-pubkey sdk event s h0 = >>=-after (expect_kind event kind_rates) h0 λ u e0 h1.
    >>=-after (required event "d") h1 λ found e1 h2.
      >>=-after (expect_identifier found) h2 λ u' e2 h3.
        >>=-after (signed_at event) h3 λ created_at e3 h4.
          >>=-after (optional event "published_at") h4 λ claim e4 h5.
            >>=-after (claimed_at created_at claim) h5 λ published_at e5 h6.
              >>=-after (optional event "source") h6 λ source e6 h7.
                >>=-after (parse_content sdk event.content) h7
                  λ rates e7 h8. sym (ap (λ x. x.pubkey) (ok-inj _ s h8))

parsed_as-IsFrom :
    {A : Type 0} (event : Event) (wrap : A → Parsed) (r : Parse A) (parsed : Parsed)
    → ((a : A) → r ≡ ok a → IsFrom event (wrap a))
    → parsed_as wrap r ≡ ok parsed
    → IsFrom event parsed
parsed_as-IsFrom event wrap (ok a) parsed k h =
    subst (IsFrom event) (ok-inj (wrap a) parsed h) (k a refl)
parsed_as-IsFrom event wrap (err error) parsed k h = absurd (cc h)

pub parse-IsFrom :
    (sdk : Sdk) (event : Event) (parsed : Parsed)
    → parse sdk event ≡ ok parsed
    → IsFrom event parsed
unfolding parse untagged
parse-IsFrom sdk event parsed h = elim (Bool-cases (event.kind == kind_order)) [
  | inl t ↦ parsed_as-IsFrom event order (parse_order sdk event) parsed (λ v e. tt) (rw t at h)
  | inr f ↦ elim (Bool-cases (event.kind == kind_dev_fee)) [
    | inl t ↦
        parsed_as-IsFrom event dev_fee (parse_dev_fee sdk event) parsed (λ v e. tt) (rw (f, t) at h)
    | inr f1 ↦ elim (Bool-cases (event.kind == kind_dispute)) [
      | inl t ↦
          parsed_as-IsFrom event dispute (parse_dispute event) parsed (λ v e. tt)
            (rw (f, f1, t) at h)
      | inr f2 ↦ elim (Bool-cases (event.kind == kind_info)) [
        | inl t ↦
            parsed_as-IsFrom event info (parse_info sdk event) parsed (λ v e. tt)
              (rw (f, f1, f2, t) at h)
        | inr f3 ↦ elim (Bool-cases (event.kind == kind_rates)) [
          | inl t ↦
              parsed_as-IsFrom event rates_of (parse_rates sdk event) parsed
                (λ v e. (parse_rates-pubkey sdk event v e, rw t refl)) (rw (f, f1, f2, f3, t) at h)
          | inr f4 ↦ elim (Bool-cases (event.kind == kind_relay_list)) [
            | inl t ↦
                parsed_as-IsFrom event relay_list (parse_relay_list sdk event) parsed (λ v e. tt)
                  (rw (f, f1, f2, f3, f4, t) at h)
            | inr f5 ↦ let h' = rw (f, f1, f2, f3, f4, f5) at h in absurd (cc h')
          ]
        ]
      ]
    ]
  ]
]

-- A row that is there stays there.
any-grows :
    {A : Type 0} (p : A → Bool) (xs ys : List A)
    → ((a : A) → In a xs → (b : A) × In b ys × (p b ≡ p a))
    → any p xs ≡ true
    → any p ys ≡ true
any-grows p xs ys grow h =
    let (a, i, t) = any-witness p xs h in let (b, j, e) = grow a i in any-In p b ys j (e ∙ t)

module _ (k : String) where
  ordered : List OrderVersion → Bool
  ordered = any (λ v. str_eq v.pubkey k)

  paid : List StoredDevFee → Bool
  paid = any (λ row. str_eq row.fee.pubkey k)

  disputed : List DisputeVersion → Bool
  disputed = any (λ v. str_eq v.pubkey k)

  profiled : List InstanceInfo → Bool
  profiled = any (λ i. str_eq i.pubkey k)

  grown :
      (db db' : Db)
      → (ordered db.order_versions ≡ true → ordered db'.order_versions ≡ true)
      → (paid db.dev_fees ≡ true → paid db'.dev_fees ≡ true)
      → (disputed db.dispute_versions ≡ true → disputed db'.dispute_versions ≡ true)
      → (profiled db.instance_info ≡ true → profiled db'.instance_info ≡ true)
      → HasTagged db k
      → HasTagged db' k
  unfolding Instances.is_platform_proven ordered paid disputed profiled
  grown db db' f g h i t = ground arith

  pub persist_parsed-HasTagged :
      (parsed : Parsed) (db : Db) → HasTagged db k → HasTagged (persist_parsed parsed db) k
  unfolding persist_parsed Orders.insert_version Disputes.insert_version insert_info DevFees.insert
      DevFees.refresh_duplicates ordered paid disputed profiled
  persist_parsed-HasTagged (order v) db t =
      grown db (persist_parsed (order v) db)
        (any-grows _ db.order_versions _
          (λ a i. (a, In-insert_or_ignore (λ v. v.event_id) a v db.order_versions i, refl)))
        (λ h. h) (λ h. h) (λ h. h) t
  persist_parsed-HasTagged (dispute v) db t =
      grown db (persist_parsed (dispute v) db) (λ h. h) (λ h. h)
        (any-grows _ db.dispute_versions _
          (λ a i. (a, In-insert_or_ignore (λ v. v.event_id) a v db.dispute_versions i, refl)))
        (λ h. h) t
  persist_parsed-HasTagged (info v) db t =
      grown db (persist_parsed (info v) db) (λ h. h) (λ h. h) (λ h. h)
        (any-grows _ db.instance_info _
          (λ a i. (a, In-insert_or_ignore (λ v. v.event_id) a v db.instance_info i, refl)))
        t
  persist_parsed-HasTagged (dev_fee fee) db t =
      grown db (persist_parsed (dev_fee fee) db) (λ h. h) (any-grows _ db.dev_fees _ kept) (λ h. h)
        (λ h. h) t
    where
      rows : List StoredDevFee
      rows =
          insert_or_ignore DevFees.event_id (record { fee = fee; is_duplicate = false }) db.dev_fees

      kept :
          (a : StoredDevFee)
          → In a db.dev_fees
          → (b : StoredDevFee) × In b (DevFees.refresh_duplicates fee.order_id rows)
            × (str_eq b.fee.pubkey k ≡ str_eq a.fee.pubkey k)
      kept a i = (
        flagged fee.order_id (first_paid fee.order_id rows) a,
        In-map (flagged fee.order_id (first_paid fee.order_id rows)) a rows (
            In-insert_or_ignore DevFees.event_id a (record { fee = fee; is_duplicate = false })
              db.dev_fees i),
        ap (λ f. str_eq f.pubkey k) (flagged-fee fee.order_id (first_paid fee.order_id rows) a),
      )
  persist_parsed-HasTagged (rates_of snapshot) db t = t
  persist_parsed-HasTagged (relay_list list) db t = t
