-- ===== src/Prelude/Map.antt =====
-- `BTreeMap<String, V>` and `BTreeSet<String>`: the entries in the order of their keys.
use bestiario.Prelude.Tests.{if◌then◌else◌, Bool-cases}
use bestiario.Prelude.Lists.{In}
use Prim.Native.Nat.{Ordering}
use Prim.Native.String.{String, compare}
use text.Mathlib.Text.{◌==◌}
use text.Mathlib.TextEquality.{eq_iff}
use mathlib.Core.Path.{◌≡◌, refl, sym}
use mathlib.Core.Bool.{true, Bool, false, ◌||◌}
use mathlib.Core.Logic.{◌⊎◌, inl, inr}
use mathlib.Core.List.{List, [], ◌∷◌}
use mathlib.Core.Option.{Option, none, some}
use native.Mathlib.Omega.{arith}

abbrev pub Map : Type 0 → Type 0
Map V = List (String × V)

module _ {V : Type 0} where
  unfoldable pub get : String → Map V → Option V
  get k [] = none
  get k ((j, v) ∷ m) = if j == k then some v else get k m

  unfoldable pub insert : String → V → Map V → Map V
  insert k v [] = (k, v) ∷ []
  insert k v ((j, w) ∷ m) =
      let rest = insert k v m in
      if j == k
      then (k, v) ∷ m
      else elim (compare k j) [ Ordering.lt ↦ (k, v) ∷ (j, w) ∷ m | _ ↦ (j, w) ∷ rest ]

  pub get-insert :
      (k j : String) (v : V) (m : Map V)
      → get j (insert k v m) ≡ (if k == j then some v else get j m)
  unfolding get insert
  get-insert k j v [] = refl
  get-insert k j v ((i, w) ∷ m) =
      ground (arith, eq_iff k j, eq_iff i k, eq_iff i j, get-insert k j v m)

unfoldable pub contains : String → List String → Bool
contains k [] = false
contains k (j ∷ s) = j == k || contains k s

-- `SELECT DISTINCT … ORDER BY`: SQLite orders texts by their bytes.
unfoldable pub insert_key : String → List String → List String
insert_key k [] = k ∷ []
insert_key k (j ∷ s) =
    let rest = insert_key k s in
    if j == k then j ∷ s else elim (compare k j) [ Ordering.lt ↦ k ∷ j ∷ s | _ ↦ j ∷ rest ]

unfoldable pub distinct : List String → List String
unfolding insert_key
distinct [] = []
distinct (k ∷ ks) = insert_key k (distinct ks)

placed :
    (i k j : String) (s : List String) (o : Ordering)
    → In i (insert_key k s)
    → In i (elim o [ Ordering.lt ↦ i ∷ j ∷ s | _ ↦ j ∷ insert_key k s ])
placed i k j s Ordering.lt h = inl refl
placed i k j s Ordering.eq h = inr h
placed i k j s Ordering.gt h = inr h

pub In-insert_key_self : (k : String) (s : List String) → In k (insert_key k s)
unfolding insert_key
In-insert_key_self k [] = inl refl
In-insert_key_self k (j ∷ s) = elim (Bool-cases (j == k)) [
  | inl e ↦ rw e (inl (sym ((eq_iff j k).0 e)))
  | inr e ↦ rw e (placed k k j s (compare k j) (In-insert_key_self k s))
]

kept :
    (i k j : String) (s : List String) (o : Ordering)
    → In i (j ∷ s)
    → In i (insert_key k s) ⊎ (i ≡ j)
    → In i (elim o [ Ordering.lt ↦ k ∷ j ∷ s | _ ↦ j ∷ insert_key k s ])
kept i k j s Ordering.lt h c = inr h
kept i k j s Ordering.eq h (inl c) = inr c
kept i k j s Ordering.eq h (inr c) = inl c
kept i k j s Ordering.gt h (inl c) = inr c
kept i k j s Ordering.gt h (inr c) = inl c

pub In-insert_key : (i k : String) (s : List String) → In i s → In i (insert_key k s)
unfolding insert_key
In-insert_key i k [] h = elim h [ ]
In-insert_key i k (j ∷ s) (inl q) = elim (Bool-cases (j == k)) [
  | inl e ↦ rw e (inl q)
  | inr e ↦ rw e (kept i k j s (compare k j) (inl q) (inr q))
]
In-insert_key i k (j ∷ s) (inr h) = elim (Bool-cases (j == k)) [
  | inl e ↦ rw e (inr h)
  | inr e ↦ rw e (kept i k j s (compare k j) (inr h) (inl (In-insert_key i k s h)))
]

pub In-distinct : (k : String) (ks : List String) → In k ks → In k (distinct ks)
unfolding distinct
In-distinct k [] h = h
In-distinct k (j ∷ ks) (inl e) = rw e (In-insert_key_self j (distinct ks))
In-distinct k (j ∷ ks) (inr h) = In-insert_key k j (distinct ks) (In-distinct k ks h)

pub contains-In : (k : String) (s : List String) → contains k s ≡ true → In k s
unfolding contains
contains-In k [] h = cc
contains-In k (j ∷ s) h = elim (Bool-cases (j == k)) [
  | inl e ↦ inl (sym ((eq_iff j k).0 e))
  | inr e ↦ inr (contains-In k s (rw e at h))
]
