-- ===== src/Chain/Occ.antt =====
-- How often an address occurs in a list.
use lcompat.Base.{
  ℕ, ◌+◌, ◌≡◌, ◌≢◌, refl, true, false, List, [], ◌∷◌, ◌++◌, arith, ◌==◌, if◌then◌else◌, Bool-cases,
  inl, inr,
}
use lcompat.Chain.Rep.{NotIn, has, erase}

unfoldable pub occ : ℕ → List ℕ → ℕ
occ w [] = 0
occ w (x ∷ xs) = (if x == w then 1 else 0) + occ w xs

pub occ-append :
    (w x : ℕ) (xs : List ℕ) → occ w (xs ++ (x ∷ [])) ≡ occ w xs + (if x == w then 1 else 0)
unfolding occ
occ-append w x [] = omega arith
occ-append w x (y ∷ ys) = omega (arith, occ-append w x ys)

pub occ-erase :
    (w x : ℕ) (xs : List ℕ)
    → has x xs ≡ true
    → occ w xs ≡ occ w (erase x xs) + (if x == w then 1 else 0)
unfolding occ has erase
occ-erase w x [] h = absurd (ground arith)
occ-erase w x (y ∷ ys) h = elim (Bool-cases (y == x)) [
  | inl e ↦ ground arith
  | inr e ↦ rw e (ground (arith, occ-erase w x ys (rw e at h)))
]

pub occ-zero_iff_NotIn : (w : ℕ) (xs : List ℕ) → occ w xs ≡ 0 → NotIn w xs
unfolding occ
occ-zero_iff_NotIn w [] h = tt
occ-zero_iff_NotIn w (x ∷ xs) h = (ground arith, occ-zero_iff_NotIn w xs (omega arith))

pub has-occ : (w : ℕ) (xs : List ℕ) → has w xs ≡ true → occ w xs ≢ 0
unfolding occ has
has-occ w [] h = absurd (ground arith)
has-occ w (x ∷ xs) h = ground (arith, has-occ w xs)

pub erase-absent : (w : ℕ) (xs : List ℕ) → has w xs ≡ false → erase w xs ≡ xs
unfolding has erase
erase-absent w [] h = refl
erase-absent w (x ∷ xs) h = ground (arith, erase-absent w xs)
