-- ===== src/Prelude/Result.antt =====
-- `Result<A, E>`, and the `?` operator as the bind of its `do` blocks.
use mathlib.Core.Path.{◌≡◌, refl}
use mathlib.Core.Option.{Option, none, some}
use mathlib.Core.List.{List, [], ◌∷◌}

pub data Result (E A : Type 0) : Type 0 where
  ok : A → Result E A
  err : E → Result E A

infixl 5 ◌>>◌ ◌>>=◌
abbrev pub ◌>>=◌ : {E A B : Type 0} → Result E A → (A → Result E B) → Result E B
err fault >>= next = err fault
ok mid >>= next = next mid

abbrev pub ◌>>◌ : {E B : Type 0} → Result E (Unit {0}) → Result E B → Result E B
check >> next = check >>= λ done. next

-- `Option::ok_or`
abbrev pub ok_or : {E A : Type 0} → Option A → E → Result E A
ok_or none e = err e
ok_or (some a) e = ok a

-- `Option::map` with a fallible function, then `transpose`.
abbrev pub traverse : {E A B : Type 0} → Option A → (A → Result E B) → Result E (Option B)
traverse none f = ok none
traverse (some a) f = do b ← f a; ok (some b)

-- A fallible function over every item, `collect`ed: the first error ends it.
unfoldable pub map_ok : {E A B : Type 0} → (A → Result E B) → List A → Result E (List B)
map_ok f [] = ok []
map_ok f (x ∷ xs) = let rest = map_ok f xs in f x >>= λ y. rest >>= λ ys. ok (y ∷ ys)

-- What a bind that succeeded says of its two steps.
pub >>=-succeeds :
    {E A B : Type 0} {next : A → Result E B} {out : B} (first_step : Result E A)
    → (first_step >>= next) ≡ ok out
    → (mid : A) × (first_step ≡ ok mid) × (next mid ≡ ok out)
>>=-succeeds (err fault) h = cc
>>=-succeeds (ok mid) h = (mid, refl, h)

-- The same for a chain of steps: each result is a variable of what follows.
pub >>=-after :
    {E A B P : Type 0} {next : A → Result E B} {out : B} (first_step : Result E A)
    → (first_step >>= next) ≡ ok out
    → ((mid : A) → first_step ≡ ok mid → next mid ≡ ok out → P)
    → P
>>=-after (err fault) h k = absurd (cc h)
>>=-after (ok mid) h k = k mid refl h

pub ok-inj : {E A : Type 0} (a b : A) → ◌≡◌ {A = Result E A} (ok a) (ok b) → a ≡ b
ok-inj a b h = cc
