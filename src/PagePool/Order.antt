-- ===== src/PagePool/Order.antt =====
-- `get_order`: the least order whose block holds the size.
use native.Mathlib.Nat.{pow-suc, pow-le-pow_right}
use lcompat.Base.{
  ℕ, zero, suc, ◌+◌, ◌-◌, ◌*◌, ◌/◌, ◌^◌, ◌≤◌, ◌<◌, ◌≡◌, ◌≢◌, inl, inr, arith, ◌==◌, ltb, leb,
  Bool-cases, ltb→lt, ltb→le,
}
use lcompat.PagePool.{page_size, page_shift, order_loop, get_order}

-- What the loop adds to `order`: the number of binary digits of `pages`.
record Digits (pages order result : ℕ) : Type 0 where
  digits : ℕ
  counted : result ≡ order + digits
  above : pages < 2 ^ digits
  least : 0 < digits → 2 ^ digits ≤ 2 * pages

least_double :
    (digits pages : ℕ)
    → pages ≢ 0
    → pages / 2 < 2 ^ digits
    → (0 < digits → 2 ^ digits ≤ 2 * (pages / 2))
    → 2 ^ suc digits ≤ 2 * pages
least_double zero pages nz above least = omega arith
least_double (suc m) pages nz above least = omega (arith, least (omega arith), pow-suc 2 (suc m))

Digits-double :
    (pages order result : ℕ)
    → pages ≢ 0
    → Digits (pages / 2) (order + 1) result
    → Digits pages order result
Digits-double pages order result nz d = record {
  digits = suc d.digits;
  counted = omega (arith, d.counted);
  above = omega (arith, d.above, pow-suc 2 d.digits);
  least = λ _. least_double d.digits pages nz d.above d.least;
}

order_loop-Digits :
    (fuel pages order : ℕ) → pages < 2 ^ fuel → Digits pages order (order_loop fuel pages order)
unfolding order_loop
order_loop-Digits zero pages order h = record {
  digits = 0;
  counted = omega arith;
  above = h;
  least = λ l. omega arith;
}
order_loop-Digits (suc fuel) pages order h = elim (Bool-cases (pages == 0)) [
  | inl e ↦
      rw (e, order_loop)
        (record {
          digits = 0;
          counted = omega arith;
          above = ground arith;
          least = λ l. omega arith;
        })
  | inr e ↦
      rw (e, order_loop)
        (Digits-double pages order _ (ground arith)
          (order_loop-Digits fuel (pages / 2) (order + 1) (omega (arith, pow-suc 2 fuel))))
]

least_block :
    (size order : ℕ)
    → page_size < size
    → Digits ((size - 1) / 2 ^ page_shift) 0 order
    → (size ≤ page_size * 2 ^ order) × (0 < order → page_size * 2 ^ order < 2 * size)
least_block size order big d =
    let e : order ≡ d.digits = omega (arith, d.counted) in
    rw e (omega (arith, d.above), λ l. omega (arith, d.least l))

-- The block of the order that `get_order` returns holds `size` bytes, and for any order but 0 half
-- of that block does not, for every `unsigned long` size.
pub get_order_least :
    (size : ℕ)
    → size < 2 ^ 64
    → (size ≤ page_size * 2 ^ get_order size)
      × (0 < get_order size → page_size * 2 ^ get_order size < 2 * size)
unfolding get_order
get_order_least size h = elim (Bool-cases (leb size page_size)) [
  | inl e ↦ rw e (ground arith, λ l. omega arith)
  | inr e ↦ rw e (
      least_block size _ (ground arith)
        (order_loop-Digits 64 ((size - 1) / 2 ^ page_shift) 0 (omega arith)))
]

-- A 32-bit size needs an order below 21, so its block is far from the limits of `size_t`.
pub get_order-lt : (size : ℕ) → size ≤ 2 ^ 32 → get_order size < 21
get_order-lt size h = elim (Bool-cases (ltb (get_order size) 21)) [
  | inl e ↦ ltb→lt (get_order size) 21 e
  | inr e ↦
      let big : 21 ≤ get_order size = ltb→le (get_order size) 21 e in
      let w : 2 ^ 21 ≤ 2 ^ get_order size = pow-le-pow_right {n = 2} (omega arith) big in
      absurd (omega (arith, (get_order_least size (omega arith)).1 (omega arith), w, h))
]
