-- ===== src/Stats/Percentile/Product.antt =====
-- The product of a share and a number of samples against that number (crates/stats/src/percentile.rs).
use bestiario.Prelude.{
  ℕ, zero, suc, ◌+◌, ◌-◌, ◌*◌, ◌/◌, ◌%◌, ◌^◌, ◌≤◌, ◌<◌, ◌==◌, Bool, true, false, ◌≡◌, refl, sym, ap,
  ◌∙◌, arith, subst, Bool-cases, inl, inr, ltb, if◌then◌else◌, ◌||◌, ◌&&◌,
}
use bestiario.Prelude.Float.{F64, lt_f64, is_nan, order_key}
use bestiario.Stats.Percentile.{halvings, nearest, round, unit, units, clamp, product}
use native.Mathlib.Nat.{
  pow-suc, mul-le-mul_right, mul-le-mul, mul_assoc, mul_comm, mod-add-div', pow-le-pow_right,
  mul-lt-mul_of_pos_right,
}

halvings-bound : (fuel j a : ℕ) → a < 9007199254740992 * 2 ^ j → halvings fuel a ≤ j
unfolding halvings
halvings-bound zero j a h = omega arith
halvings-bound (suc fuel) zero a h =
    let small : ltb a 9007199254740992 ≡ true = ground arith in rw small (omega arith)
halvings-bound (suc fuel) (suc j) a h =
    let half : a / 2 < 9007199254740992 * 2 ^ j = omega (arith, h, pow-suc 2 j) in
    let rest = halvings-bound fuel j (a / 2) half in ground (arith, rest)

lt_of_products : (q m step : ℕ) → q * step < m * step → q < m
lt_of_products q m step h = elim (Bool-cases (ltb q m)) [
  | inl e ↦ ground arith
  | inr e ↦
      let le : m ≤ q = ground arith in
      let over : m * step ≤ q * step = mul-le-mul_right step le in absurd (omega (arith, over, h))
]

-- To the nearest multiple, a number does not pass a multiple that it is not above.
nearest-bound : (step m a : ℕ) → 0 < step → a ≤ m * step → nearest step a ≤ m * step
unfolding nearest
nearest-bound step m a positive h =
    let parts : a % step + a / step * step ≡ a = mod-add-div' a step in
    elim (Bool-cases (ltb step (2 * (a % step)) || 2 * (a % step) == step && a / step % 2 == 1)) [
      | inl e ↦
          let rest : 0 < a % step = ground arith in
          let below : a / step * step < m * step = omega (arith, parts, rest, h) in
          rw e (mul-le-mul_right step (lt_of_products (a / step) m step below))
      | inr e ↦ rw e (omega (arith, parts, h))
    ]

two_pow-positive : (j : ℕ) → 0 < 2 ^ j
two_pow-positive zero = omega arith
two_pow-positive (suc j) = let rest = two_pow-positive j in omega (arith, rest, pow-suc 2 j)

add-zero : (i : ℕ) → i + 0 ≡ i
add-zero i = omega arith

add-suc : (i k : ℕ) → i + suc k ≡ suc (i + k)
add-suc i k = omega arith

two_pow-split : (k i : ℕ) → 2 ^ (i + k) ≡ 2 ^ i * 2 ^ k
two_pow-split zero i = rw (add-zero i) (omega arith)
two_pow-split (suc k) i =
    let rest = two_pow-split k i in
    rw (pow-suc 2 k) (
      ap (λ n. 2 ^ n) (add-suc i k)
      ∙ pow-suc 2 (i + k)
      ∙ ap (λ n. n * 2) rest
      ∙ mul_assoc (2 ^ i) (2 ^ k) 2)

rounded-bound :
    (fuel n j a : ℕ)
    → n < 9007199254740992
    → a ≤ n * 2 ^ j
    → nearest (2 ^ halvings fuel a) a ≤ n * 2 ^ j
rounded-bound fuel n j a small h =
    let k : ℕ = halvings fuel a in
    let wide : n * 2 ^ j < 9007199254740992 * 2 ^ j =
      mul-lt-mul_of_pos_right small (two_pow-positive j) in
    let few : k ≤ j = halvings-bound fuel j a (omega (arith, h, wide)) in
    let split : 2 ^ j ≡ 2 ^ (j - k) * 2 ^ k =
      ap (λ n. 2 ^ n) (sum k j few) ∙ two_pow-split k (j - k) in
    let whole : n * 2 ^ j ≡ n * 2 ^ (j - k) * 2 ^ k =
      ap (λ b. n * b) split ∙ sym (mul_assoc n (2 ^ (j - k)) (2 ^ k)) in
    subst (λ b. nearest (2 ^ k) a ≤ b) (sym whole)
      (nearest-bound (2 ^ k) (n * 2 ^ (j - k)) a (two_pow-positive k) (subst (λ b. a ≤ b) whole h))
  where
    sum : (k j : ℕ) → k ≤ j → j ≡ j - k + k
    sum k j h = omega arith

halvings-small : (fuel n : ℕ) → n < 9007199254740992 → halvings (suc fuel) n ≡ 0
unfolding halvings
halvings-small fuel n h = let small : ltb n 9007199254740992 ≡ true = ground arith in rw small refl

nearest-one : (n : ℕ) → nearest 1 n ≡ n
unfolding nearest
nearest-one n = ground arith

rounded-small : (fuel n : ℕ) → n < 9007199254740992 → nearest (2 ^ halvings (suc fuel) n) n ≡ n
rounded-small fuel n h = ap (λ k. nearest (2 ^ k) n) (halvings-small fuel n h) ∙ nearest-one n

round-bound : (n j a : ℕ) → n < 9007199254740992 → a ≤ n * 2 ^ j → round a ≤ n * 2 ^ j
unfolding round
round-bound n j a small h = rounded-bound 1200 n j a small h

round-small : (n : ℕ) → n < 9007199254740992 → round n ≡ n
unfolding round
round-small n h = rounded-small 1199 n h

two_pow-le : (i j : ℕ) → i ≤ j → 2 ^ i ≤ 2 ^ j
two_pow-le i j h = let two : 0 < 2 = omega arith in pow-le-pow_right two h

decoded-bound :
    (e f : ℕ)
    → f < 4503599627370496
    → 4503599627370496 * e + f ≤ 4607182418800017408
    → (if e == 0 then f else (f + 4503599627370496) * 2 ^ (e - 1)) ≤ unit
decoded-bound e f small top = elim (Bool-cases (e == 0)) [
  | inl q ↦ rw q (omega arith)
  | inr q ↦ rw q (elim (Bool-cases (e == 1023)) [
    | inl r ↦
        let is_top : e ≡ 1023 = ground arith in
        let none_left : f ≡ 0 = omega arith in rw (is_top, none_left) (omega arith)
    | inr r ↦
        let low : e ≤ 1022 = ground arith in
        let sum : f + 4503599627370496 ≤ 9007199254740992 = omega arith in
        let power : 2 ^ (e - 1) ≤ 2 ^ 1021 = two_pow-le (e - 1) 1021 (omega arith) in
        let whole : (f + 4503599627370496) * 2 ^ (e - 1) ≤ 9007199254740992 * 2 ^ 1021 =
          mul-le-mul sum power in
        omega (arith, whole)
  ])
]

-- A magnitude of at most that of 1.0 is at most as many units.
units-bound : (x : F64) → x.bits % 9223372036854775808 ≤ 4607182418800017408 → units x ≤ unit
unfolding units
units-bound x h =
    let e : ℕ = x.bits % 9223372036854775808 / 4503599627370496 in
    let f : ℕ = x.bits % 4503599627370496 in
    let exponent : e ≤ 1023 = omega (arith, h) in
    let fraction : f < 4503599627370496 = omega arith in
    let top : 4503599627370496 * e + f ≤ 4607182418800017408 = omega (arith, h) in
    decoded-bound e f fraction top

clamp-low :
    (p : F64) → is_nan p ≡ false → (clamp p).bits % 9223372036854775808 ≤ 4607182418800017408
unfolding clamp lt_f64 is_nan order_key
clamp-low p h = ground arith

pub product-bound : (p : F64) (n : ℕ) → n < 9007199254740992 → product p n ≤ n * unit
unfolding product
product-bound p n small = elim (Bool-cases (is_nan p)) [
  | inl e ↦ chosen (is_nan p) (λ q. absurd (cc (sym e ∙ q)))
  | inr e ↦
      let low : units (clamp p) * n ≤ unit * n =
        mul-le-mul_right n (units-bound (clamp p) (clamp-low p e)) in
      let turned : units (clamp p) * n ≤ n * unit =
        subst (λ b. units (clamp p) * n ≤ b) (mul_comm unit n) low in
      let exact : units (clamp p) * round n ≤ n * unit =
        subst (λ m. units (clamp p) * m ≤ n * unit) (sym (round-small n small)) turned in
      chosen (is_nan p) (λ q. round-bound n 1074 (units (clamp p) * round n) small exact)
]
  where
    chosen :
        (b : Bool)
        → (b ≡ false → round (units (clamp p) * round n) ≤ n * unit)
        → (if b then 0 else round (units (clamp p) * round n)) ≤ n * unit
    chosen true h = omega arith
    chosen false h = h refl
