-- ===== src/Db/Cursors.antt =====
-- `sync_state`: how far each relay was read, for each kind (src/db/repo/sync_state.rs).
use bestiario.Prelude.{
  ℕ, String, ◌≡◌, Option, none, some, ◌&&◌, ◌==◌, str_eq, eq_iff, if◌then◌else◌, arith, fun_ext,
}
use bestiario.Prelude.Int.{ℤ, max_ℤ}

pub record Cursor : Type 0 where
  pub last_created_at : ℤ
  pub updated_at : ℤ

-- The primary key is the relay and the kind.
abbrev pub Cursors : Type 0
Cursors = String → ℕ → Option Cursor

unfoldable pub advanced : Option Cursor → ℤ → ℤ → Cursor
advanced none created_at now = record { last_created_at = created_at; updated_at = now }
advanced (some cursor) created_at now = record {
  last_created_at = max_ℤ cursor.last_created_at created_at;
  updated_at = max_ℤ cursor.updated_at now;
}

unfoldable pub advance : String → ℕ → ℤ → ℤ → Cursors → Cursors
advance relay_url kind created_at now cursors url k =
    if str_eq relay_url url && kind == k
    then some (advanced (cursors relay_url kind) created_at now)
    else cursors url k

max_ℤ_swap : (a b c : ℤ) → max_ℤ (max_ℤ a b) c ≡ max_ℤ (max_ℤ a c) b
max_ℤ_swap a b c = ground arith

max_ℤ_comm : (a b : ℤ) → max_ℤ a b ≡ max_ℤ b a
max_ℤ_comm a b = ground arith

advanced_comm :
    (c : Option Cursor) (at at' now now' : ℤ)
    → advanced (some (advanced c at now)) at' now' ≡ advanced (some (advanced c at' now')) at now
unfolding advanced
advanced_comm none at at' now now' =
    λ i. record { last_created_at = max_ℤ_comm at at' i; updated_at = max_ℤ_comm now now' i }
advanced_comm (some c) at at' now now' = λ i. record {
  last_created_at = max_ℤ_swap c.last_created_at at at' i;
  updated_at = max_ℤ_swap c.updated_at now now' i;
}

-- Two events may be recorded in either order, for any relays and kinds: the cursors come out the
-- same.
pub advance_comm :
    (url url' : String) (kind kind' : ℕ) (at at' now now' : ℤ) (cursors : Cursors)
    → advance url kind at now (advance url' kind' at' now' cursors)
      ≡ advance url' kind' at' now' (advance url kind at now cursors)
unfolding advance
advance_comm url url' kind kind' at at' now now' cursors = fun_ext λ u. fun_ext λ k. ground (
  arith,
  eq_iff url u,
  eq_iff url' u,
  eq_iff url url',
  eq_iff url' url,
  advanced_comm (cursors url kind) at at' now now',
)
