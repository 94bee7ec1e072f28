-- ===== src/Db/DevFees/Flags.antt =====
-- What the flag on a development fee says (src/db/repo/dev_fees.rs).
use bestiario.Prelude.{
  String, ◌≡◌, ◌≢◌, refl, sym, ap, ◌∙◌, ◌⊎◌, inl, inr, ◌↔◌, Bool, true, false, not, Bool-cases,
  Option, some, List, [], ◌==◌, ==_iff, eq_iff, subst,
}
use bestiario.Prelude.Best.{first-In, first-some, first_least}
use bestiario.Prelude.Lists.{In, IsKeyed, In-map, map-In, select, select-In, In-select}
use bestiario.Ingest.Parse.DevFee.{DevFee}
use bestiario.Db.Table.{
  older, older-IsWeakOrder, older_tie, insert_or_ignore, In-insert_or_ignore,
  insert_or_ignore_cases, IsKeyed-insert_or_ignore,
}
use bestiario.Db.DevFees.{
  StoredDevFee, paid_at, event_id, of_order, first_paid, is_first, flagged, refresh_duplicates,
  insert,
}

-- No row of the same order was paid earlier, or has a smaller id at the same second.
abbrev pub IsEarliest : List StoredDevFee → StoredDevFee → Type 0
IsEarliest rows row =
    (other : StoredDevFee)
    → In other rows
    → other.fee.order_id ≡ row.fee.order_id
    → older paid_at event_id other row ≡ false

-- The row is unflagged exactly where it is the earliest of its order.
abbrev pub IsExact : List StoredDevFee → StoredDevFee → Type 0
IsExact rows row = (row.is_duplicate ≡ false) ↔ IsEarliest rows row

pub record IsFlagged (rows : List StoredDevFee) : Type 0 where
  pub keyed : IsKeyed event_id rows
  pub exact : (row : StoredDevFee) → In row rows → IsExact rows row

pub flagged-fee :
    (o : String) (e : Option StoredDevFee) (row : StoredDevFee) → (flagged o e row).fee ≡ row.fee
flagged-fee o e row = elim (Bool-cases (of_order o row)) [ inl t ↦ rw t refl | inr t ↦ rw t refl ]

-- Only the fees matter to which row is the earliest.
older-fees :
    (a b c d : StoredDevFee)
    → a.fee ≡ c.fee
    → b.fee ≡ d.fee
    → older paid_at event_id a b ≡ older paid_at event_id c d
older-fees a b c d h k = rw (h, k) refl

module _ (o : String) (rows : List StoredDevFee) (keyed : IsKeyed event_id rows) where
  refresh-In :
      (row : StoredDevFee)
      → In row (refresh_duplicates o rows)
      → (r : StoredDevFee) × In r rows × (row ≡ flagged o (first_paid o rows) r)
  unfolding refresh_duplicates
  refresh-In row i = map-In (flagged o (first_paid o rows)) row rows i

  In-refresh :
      (r : StoredDevFee)
      → In r rows
      → In (flagged o (first_paid o rows) r) (refresh_duplicates o rows)
  unfolding refresh_duplicates
  In-refresh r i = In-map (flagged o (first_paid o rows)) r rows i

  refresh-IsKeyed : IsKeyed event_id (refresh_duplicates o rows)
  refresh-IsKeyed a b i j h =
      let (r, ir, er) = refresh-In a i in
      let (s, is, es) = refresh-In b j in
      let same = keyed r s ir is (
        sym (ap (λ f. f.event_id) (flagged-fee o _ r))
        ∙ sym (ap event_id er)
        ∙ h
        ∙ ap event_id es
        ∙ ap (λ f. f.event_id) (flagged-fee o _ s)) in
      er ∙ ap (flagged o (first_paid o rows)) same ∙ sym es

  -- The rows after the refresh have the fees of the rows before.
  IsEarliest-refresh :
      (r row : StoredDevFee)
      → row.fee ≡ r.fee
      → IsEarliest rows r ↔ IsEarliest (refresh_duplicates o rows) row
  IsEarliest-refresh r row e = (there, back)
    where
      there : IsEarliest rows r → IsEarliest (refresh_duplicates o rows) row
      there h other i same =
          let (s, j, q) = refresh-In other i in
          let f : other.fee ≡ s.fee = ap (λ x. x.fee) q ∙ flagged-fee o _ s in
          older-fees other row s r f e
          ∙ h s j (sym (ap (λ x. x.order_id) f) ∙ same ∙ ap (λ x. x.order_id) e)

      back : IsEarliest (refresh_duplicates o rows) row → IsEarliest rows r
      back h s j same =
          let f = flagged-fee o (first_paid o rows) s in
          older-fees s r (flagged o (first_paid o rows) s) row (sym f) (sym e)
          ∙ h (flagged o (first_paid o rows) s) (In-refresh s j)
              (ap (λ x. x.order_id) f ∙ same ∙ sym (ap (λ x. x.order_id) e))

  -- The statement's subquery answers for a row of the order exactly where the row is the earliest.
  is_first-IsEarliest :
      (r : StoredDevFee)
      → In r rows
      → of_order o r ≡ true
      → (is_first (first_paid o rows) r ≡ true) ↔ IsEarliest rows r
  is_first-IsEarliest r i t =
      let selected = In-select (of_order o) r rows i t in
      let (e, found) = first-some (older paid_at event_id) r (select (of_order o) rows) selected in
      decided e found (select-In (of_order o) e rows (first-In _ e _ found)) selected
    where
      decided :
          (e : StoredDevFee)
          → first_paid o rows ≡ some e
          → In e rows × (of_order o e ≡ true)
          → In r (select (of_order o) rows)
          → (is_first (first_paid o rows) r ≡ true) ↔ IsEarliest rows r
      decided e found (j, u) selected = rw found (there, back)
        where
          least :
              (s : StoredDevFee)
              → In s (select (of_order o) rows)
              → older paid_at event_id s e ≡ false
          least s k =
              first_least (older paid_at event_id) (older-IsWeakOrder paid_at event_id) e s _ found
                k

          there : (event_id r == event_id e) ≡ true → IsEarliest rows r
          there h other k same =
              let q : r ≡ e = keyed r e i j ((==_iff _ _).0 h) in
              subst (λ x. older paid_at event_id other x ≡ false) (sym q)
                (least other (
                  In-select (of_order o) other rows k
                    ((eq_iff other.fee.order_id o).1 (same ∙ (eq_iff r.fee.order_id o).0 t))))

          back : IsEarliest rows r → (event_id r == event_id e) ≡ true
          back h = (==_iff _ _).1 (
              older_tie paid_at event_id r e (least r selected)
                (h e j ((eq_iff e.fee.order_id o).0 u ∙ sym ((eq_iff r.fee.order_id o).0 t))))

  -- A refresh makes the flags of one order exact, and leaves those of the others.
  refresh-IsFlagged :
      ((r : StoredDevFee) → In r rows → of_order o r ≡ false → IsExact rows r)
      → IsFlagged (refresh_duplicates o rows)
  refresh-IsFlagged others = record { keyed = refresh-IsKeyed; exact = exact }
    where
      through :
          (r : StoredDevFee) (flag : Bool)
          → (flag ≡ false) ↔ IsEarliest rows r
          → (flagged o (first_paid o rows) r).is_duplicate ≡ flag
          → IsExact (refresh_duplicates o rows) (flagged o (first_paid o rows) r)
      through r flag h e =
          let (to, from) =
            IsEarliest-refresh r (flagged o (first_paid o rows) r)
              (flagged-fee o (first_paid o rows) r) in
          ((λ d. to (h.0 (sym e ∙ d))), λ q. e ∙ h.1 (from q))

      negated : (b : Bool) → (not b ≡ false) ↔ (b ≡ true)
      negated true = ((λ h. refl), λ h. refl)
      negated false = ((λ h. cc), λ h. cc)

      of_row :
          (r : StoredDevFee)
          → In r rows
          → IsExact (refresh_duplicates o rows) (flagged o (first_paid o rows) r)
      of_row r i = elim (Bool-cases (of_order o r)) [
        | inl t ↦
            let (to, from) = is_first-IsEarliest r i t in
            let (down, up) = negated (is_first (first_paid o rows) r) in
            through r (not (is_first (first_paid o rows) r)) ((λ d. to (down d)), λ q. up (from q))
              (rw t refl)
        | inr t ↦ through r r.is_duplicate (others r i t) (rw t refl)
      ]

      exact :
          (row : StoredDevFee)
          → In row (refresh_duplicates o rows)
          → IsExact (refresh_duplicates o rows) row
      exact row i =
          let (r, j, e) = refresh-In row i in
          subst (IsExact (refresh_duplicates o rows)) (sym e) (of_row r j)

-- Storing a development fee keeps the flags exact: if two rows of one event id were the same row,
-- and a row was unflagged exactly where no row of its order was paid earlier, ties decided by the
-- event id, then both hold of the rows afterwards.
pub insert-IsFlagged :
    (fee : DevFee) (rows : List StoredDevFee) → IsFlagged rows → IsFlagged (insert fee rows)
unfolding insert
insert-IsFlagged fee rows f =
    refresh-IsFlagged fee.order_id rows' (IsKeyed-insert_or_ignore event_id new rows f.keyed) others
  where
    new : StoredDevFee
    new = record { fee = fee; is_duplicate = false }

    rows' : List StoredDevFee
    rows' = insert_or_ignore event_id new rows

    apart : (r : StoredDevFee) → of_order fee.order_id r ≡ false → new.fee.order_id ≢ r.fee.order_id
    apart r t q = cc (t, (eq_iff r.fee.order_id fee.order_id).1 (sym q))

    kept : (r : StoredDevFee) → of_order fee.order_id r ≡ false → IsExact rows r → IsExact rows' r
    kept r t (to, from) = (
      (λ d other i same. before (insert_or_ignore_cases event_id other new rows i) d same),
      λ h. from (λ other i same. h other (In-insert_or_ignore event_id other new rows i) same),
    )
      where
        before :
            {other : StoredDevFee}
            → In other rows ⊎ (other ≡ new)
            → r.is_duplicate ≡ false
            → other.fee.order_id ≡ r.fee.order_id
            → older paid_at event_id other r ≡ false
        before (inl i) d same = to d _ i same
        before (inr e) d same = absurd (apart r t (sym (ap (λ x. x.fee.order_id) e) ∙ same))

    others : (r : StoredDevFee) → In r rows' → of_order fee.order_id r ≡ false → IsExact rows' r
    others r i t = was (insert_or_ignore_cases event_id r new rows i)
      where
        was : In r rows ⊎ (r ≡ new) → IsExact rows' r
        was (inl j) = kept r t (f.exact r j)
        was (inr e) = absurd (apart r t (sym (ap (λ x. x.fee.order_id) e)))

pub no_fees-IsFlagged : IsFlagged []
no_fees-IsFlagged = record { keyed = λ a b i j e. absurd i; exact = λ row i. absurd i }
