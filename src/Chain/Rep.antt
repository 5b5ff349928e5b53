-- ===== src/Chain/Rep.antt =====
-- What a queue stands for: the sequence of its objects.
use lcompat.Base.{
  ℕ, ◌≡◌, ◌≢◌, refl, Bool, false, ◌||◌, List, [], ◌∷◌, ◌++◌, arith, ◌==◌, if◌then◌else◌,
}
use lcompat.Chain.{Links, Ends, update}

abbrev pub NotIn : ℕ → List ℕ → Type 0
NotIn x [] = Unit {0}
NotIn x (y ∷ ys) = (x ≢ y) × NotIn x ys

unfoldable pub has : ℕ → List ℕ → Bool
has x [] = false
has x (y ∷ ys) = y == x || has x ys

-- The list without its first `x`.
unfoldable pub erase : ℕ → List ℕ → List ℕ
erase x [] = []
erase x (y ∷ ys) = if y == x then ys else y ∷ erase x ys

-- The last of the objects, `d` where there is none.
abbrev pub last : ℕ → List ℕ → ℕ
last d [] = d
last d (x ∷ xs) = last x xs

-- From `p` the links lead through the distinct objects `xs` to NULL.
abbrev pub Chain : Links → ℕ → List ℕ → Type 0
Chain next p [] = p ≡ 0
Chain next p (x ∷ xs) = (p ≡ x) × (x ≢ 0) × NotIn x xs × Chain next (next x) xs

pub record IsQueue (next : Links) (e : Ends) (xs : List ℕ) : Type 0 where
  pub chain : Chain next e.head xs
  pub end : e.tail ≡ last 0 xs

-- A chain does not see writes to other objects.
pub Chain-update :
    (next : Links) (p q v : ℕ) (xs : List ℕ)
    → NotIn q xs
    → Chain next p xs
    → Chain (update next q v) p xs
unfolding update
Chain-update next p q v [] out c = c
Chain-update next p q v (x ∷ xs) out c =
    let e : (x == q) ≡ false = ground arith in
    (c.0, c.1, c.2, rw (e, update) (Chain-update next (next x) q v xs out.1 c.3))

pub NotIn-append : (x y : ℕ) (xs : List ℕ) → NotIn x xs → x ≢ y → NotIn x (xs ++ (y ∷ []))
NotIn-append x y [] n h = (h, tt)
NotIn-append x y (z ∷ zs) n h = (n.0, NotIn-append x y zs n.1 h)

pub NotIn-erase : (x y : ℕ) (xs : List ℕ) → NotIn x xs → NotIn x (erase y xs)
unfolding erase
NotIn-erase x y [] n = tt
NotIn-erase x y (z ∷ zs) n = ground (arith, NotIn-erase x y zs n.1)

pub last-append : (d y : ℕ) (xs : List ℕ) → last d (xs ++ (y ∷ [])) ≡ y
last-append d y [] = refl
last-append d y (x ∷ xs) = last-append x y xs

-- The last object of a chain is one of its objects.
pub last-ne_NotIn : (x d : ℕ) (xs : List ℕ) → x ≢ d → NotIn x xs → x ≢ last d xs
last-ne_NotIn x d [] h n = h
last-ne_NotIn x d (y ∷ ys) h n = last-ne_NotIn x y ys n.0 n.1
