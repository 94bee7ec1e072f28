-- ===== src/Stats/Disputes/Instances.antt =====
-- What an instance's group of disputes holds (crates/stats/src/disputes.rs).
use bestiario.Prelude.{
  Bool, Bool-cases, inl, inr, String, List, [], ◌∷◌, ◌++◌, ◌≡◌, refl, str_eq, if◌then◌else◌, ◌∙◌,
}
use bestiario.Prelude.Lists.{select}
use bestiario.Prelude.Map.{Map, get, insert, get-insert}
use bestiario.Stats.Disputes.{Dispute, Taken, DisputeData}
use bestiario.Stats.Disputes.Report.{
  group_of, push_dispute, push_taken, push_disputes, push_all_taken, by_instance,
}
use text.Mathlib.TextEquality.{eq_iff}
use mathlib.Core.List.{append-nil, append_assoc}
use mathlib.Core.Path.{sym, ap}

-- What is pushed onto the group of one instance is found under that instance and no other.
group_of-insert :
    (key name : String) (group : DisputeData) (groups : Map DisputeData)
    → group_of (get key (insert name group groups))
      ≡ (if str_eq name key then group else group_of (get key groups))
group_of-insert key name group groups =
    let found = get-insert name key group groups in
    elim (Bool-cases (str_eq name key)) [ inl e ↦ rw (found, e) refl | inr e ↦ rw (found, e) refl ]

get-push_dispute :
    (key : String) (dispute : Dispute) (groups : Map DisputeData)
    → ((group_of (get key (push_dispute dispute groups))).disputes
        ≡ (group_of (get key groups)).disputes
          ++ select (λ d. str_eq d.instance_name key) (dispute ∷ []))
      × ((group_of (get key (push_dispute dispute groups))).taken
          ≡ (group_of (get key groups)).taken)
unfolding push_dispute select
get-push_dispute key dispute groups =
    let name = dispute.instance_name in
    let group = group_of (get name groups) in
    let found =
      group_of-insert key name (record group { disputes = group.disputes ++ (dispute ∷ []) })
        groups in
    elim (Bool-cases (str_eq name key)) [
      | inl e ↦
          let same = (eq_iff name key).0 e in (rw (found, e, same) refl, rw (found, e, same) refl)
      | inr e ↦ (
        rw (found, e) (sym (append-nil (group_of (get key groups)).disputes)),
        rw (found, e) refl,
      )
    ]

get-push_taken :
    (key : String) (order : Taken) (groups : Map DisputeData)
    → ((group_of (get key (push_taken order groups))).taken
        ≡ (group_of (get key groups)).taken
          ++ select (λ t. str_eq t.instance_name key) (order ∷ []))
      × ((group_of (get key (push_taken order groups))).disputes
          ≡ (group_of (get key groups)).disputes)
unfolding push_taken select
get-push_taken key order groups =
    let name = order.instance_name in
    let group = group_of (get name groups) in
    let found =
      group_of-insert key name (record group { taken = group.taken ++ (order ∷ []) }) groups in
    elim (Bool-cases (str_eq name key)) [
      | inl e ↦
          let same = (eq_iff name key).0 e in (rw (found, e, same) refl, rw (found, e, same) refl)
      | inr e ↦
          (rw (found, e) (sym (append-nil (group_of (get key groups)).taken)), rw (found, e) refl)
    ]

-- One more row, at the end of what a group held.
held :
    {A : Type 0} (p : A → Bool) (row : A) (rows before group : List A)
    → group ≡ before ++ select p (row ∷ [])
    → group ++ select p rows ≡ before ++ select p (row ∷ rows)
unfolding select
held p row rows before group h = elim (Bool-cases (p row)) [
  | inl e ↦ rw (h, e) (append_assoc before (row ∷ []) (select p rows))
  | inr e ↦ rw (h, e) (ap (λ b. b ++ select p rows) (append-nil before))
]

get-push_disputes :
    (key : String) (disputes : List Dispute) (groups : Map DisputeData)
    → ((group_of (get key (push_disputes disputes groups))).disputes
        ≡ (group_of (get key groups)).disputes ++ select (λ d. str_eq d.instance_name key) disputes)
      × ((group_of (get key (push_disputes disputes groups))).taken
          ≡ (group_of (get key groups)).taken)
unfolding push_disputes select
get-push_disputes key [] groups = (sym (append-nil (group_of (get key groups)).disputes), refl)
get-push_disputes key (dispute ∷ disputes) groups =
    let (more, same) = get-push_disputes key disputes (push_dispute dispute groups) in
    let (one, kept) = get-push_dispute key dispute groups in
    (
      more
          ∙ held (λ d. str_eq d.instance_name key) dispute disputes
              (group_of (get key groups)).disputes
              (group_of (get key (push_dispute dispute groups))).disputes one,
      same ∙ kept,
    )

get-push_all_taken :
    (key : String) (orders : List Taken) (groups : Map DisputeData)
    → ((group_of (get key (push_all_taken orders groups))).taken
        ≡ (group_of (get key groups)).taken ++ select (λ t. str_eq t.instance_name key) orders)
      × ((group_of (get key (push_all_taken orders groups))).disputes
          ≡ (group_of (get key groups)).disputes)
unfolding push_all_taken select
get-push_all_taken key [] groups = (sym (append-nil (group_of (get key groups)).taken), refl)
get-push_all_taken key (order ∷ orders) groups =
    let (more, same) = get-push_all_taken key orders (push_taken order groups) in
    let (one, kept) = get-push_taken key order groups in
    (
      more
          ∙ held (λ t. str_eq t.instance_name key) order orders (group_of (get key groups)).taken
              (group_of (get key (push_taken order groups))).taken one,
      same ∙ kept,
    )

-- What the split by instance holds under a label: the disputes and the taken orders of that
-- instance, all of them and in their order, and none where there are none.
pub by_instance-groups :
    (data_set : DisputeData) (key : String)
    → ((group_of (get key (by_instance data_set))).disputes
        ≡ select (λ dispute. str_eq dispute.instance_name key) data_set.disputes)
      × ((group_of (get key (by_instance data_set))).taken
          ≡ select (λ order. str_eq order.instance_name key) data_set.taken)
unfolding by_instance get
by_instance-groups data_set key =
    let (disputes, no_taken) = get-push_disputes key data_set.disputes [] in
    let (taken, kept) =
      get-push_all_taken key data_set.taken (push_disputes data_set.disputes []) in
    (
      kept ∙ disputes,
      taken
          ∙ ap (λ t. t ++ select (λ order. str_eq order.instance_name key) data_set.taken) no_taken,
    )
