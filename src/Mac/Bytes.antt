-- ===== src/Mac/Bytes.antt =====
-- What mac80211.c reads in blocks of bytes: comparisons, words of two bytes and single bits.
use lcompat.Base.{
  ℕ, ◌+◌, ◌*◌, ◌/◌, ◌%◌, ◌^◌, ◌≡◌, refl, Bool, true, false, ◌&&◌, List, [], ◌∷◌, arith, length,
  ◌==◌, get_or,
}

-- Two blocks are equal; for blocks of one length, `memcmp(...) == 0`.
unfoldable pub same_bytes : List ℕ → List ℕ → Bool
same_bytes [] [] = true
same_bytes [] (y ∷ ys) = false
same_bytes (x ∷ xs) [] = false
same_bytes (x ∷ xs) (y ∷ ys) = x == y && same_bytes xs ys

pub same_bytes_refl : (xs : List ℕ) → same_bytes xs xs ≡ true
unfolding same_bytes
same_bytes_refl [] = refl
same_bytes_refl (x ∷ xs) = ground (arith, same_bytes_refl xs)

pub same_bytes→≡ : (xs ys : List ℕ) → same_bytes xs ys ≡ true → xs ≡ ys
unfolding same_bytes
same_bytes→≡ [] [] h = refl
same_bytes→≡ [] (y ∷ ys) h = absurd (ground arith)
same_bytes→≡ (x ∷ xs) [] h = absurd (ground arith)
same_bytes→≡ (x ∷ xs) (y ∷ ys) h =
    let e : x ≡ y = ground arith in let es : xs ≡ ys = same_bytes→≡ xs ys (ground arith) in cc

-- `BIT(k)` is set in a word.
abbrev pub bit_set : (k word : ℕ) → Bool
bit_set k word = word / 2 ^ k % 2 == 1

-- The words in two bytes at an offset, the low byte first, and the high byte first.
abbrev pub le16 : List ℕ → ℕ → ℕ
le16 bs i = get_or bs i 0 + 256 * get_or bs (i + 1) 0

abbrev pub be16 : List ℕ → ℕ → ℕ
be16 bs i = 256 * get_or bs i 0 + get_or bs (i + 1) 0

-- A word stored in two bytes.
abbrev pub le16_bytes : ℕ → List ℕ
le16_bytes w = w % 256 ∷ w / 256 % 256 ∷ []

abbrev pub be16_bytes : ℕ → List ℕ
be16_bytes w = w / 256 % 256 ∷ w % 256 ∷ []

-- A list of six bytes has six bytes.
pub six-elim :
    (P : List ℕ → Type 0)
    → ((a b c d e f : ℕ) → P (a ∷ b ∷ c ∷ d ∷ e ∷ f ∷ []))
    → (xs : List ℕ) → length xs ≡ 6
    → P xs
six-elim P h [] l = absurd (omega arith)
six-elim P h (a ∷ []) l = absurd (omega arith)
six-elim P h (a ∷ b ∷ []) l = absurd (omega arith)
six-elim P h (a ∷ b ∷ c ∷ []) l = absurd (omega arith)
six-elim P h (a ∷ b ∷ c ∷ d ∷ []) l = absurd (omega arith)
six-elim P h (a ∷ b ∷ c ∷ d ∷ e ∷ []) l = absurd (omega arith)
six-elim P h (a ∷ b ∷ c ∷ d ∷ e ∷ f ∷ []) l = h a b c d e f
six-elim P h (a ∷ b ∷ c ∷ d ∷ e ∷ f ∷ g ∷ more) l = absurd (omega arith)
