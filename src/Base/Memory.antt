-- ===== src/Base/Memory.antt =====
-- Bytes at addresses, and the two block operations of the C library that the code calls.
use Prim.Native.Nat.{ℕ, zero, suc, ◌+◌, ◌-◌, ◌≤◌, ◌<◌}
use mathlib.Core.Path.{◌≡◌, refl, ap₂, ◌∙◌, ap}
use mathlib.Core.List.{List, [], ◌∷◌, ◌++◌}
use mathlib.Core.Bool.{◌&&◌}
use native.Mathlib.Omega.{arith}
use lcompat.Base.Lists.{length, drop, replicate}
use lcompat.Base.Tests.{ltb, leb, if◌then◌else◌}

abbrev pub Memory : Type 0
Memory = ℕ → ℕ

-- `memcpy(dst, src, n)` for blocks that do not overlap.
unfoldable pub memcpy : Memory → ℕ → ℕ → ℕ → Memory
memcpy m dst src n a = if leb dst a && ltb a (dst + n) then m (src + (a - dst)) else m a

unfoldable pub memset : Memory → ℕ → ℕ → ℕ → Memory
memset m dst v n a = if leb dst a && ltb a (dst + n) then v else m a

pub memcpy-inside :
    (m : Memory) (dst src n i : ℕ) → i < n → memcpy m dst src n (dst + i) ≡ m (src + i)
unfolding memcpy
memcpy-inside m dst src n i h = let e : dst + i - dst ≡ i = omega arith in ground (arith, e)

pub memcpy-outside_below : (m : Memory) (dst src n a : ℕ) → a < dst → memcpy m dst src n a ≡ m a
unfolding memcpy
memcpy-outside_below m dst src n a h = ground arith

pub memcpy-outside_above : (m : Memory) (dst src n a : ℕ) → dst + n ≤ a → memcpy m dst src n a ≡ m a
unfolding memcpy
memcpy-outside_above m dst src n a h = ground arith

pub memset-inside : (m : Memory) (dst v n i : ℕ) → i < n → memset m dst v n (dst + i) ≡ v
unfolding memset
memset-inside m dst v n i h = ground arith

pub memset-outside_below : (m : Memory) (dst v n a : ℕ) → a < dst → memset m dst v n a ≡ m a
unfolding memset
memset-outside_below m dst v n a h = ground arith

pub memset-outside_above : (m : Memory) (dst v n a : ℕ) → dst + n ≤ a → memset m dst v n a ≡ m a
unfolding memset
memset-outside_above m dst v n a h = ground arith

-- The `n` bytes from the address `a` on.
abbrev pub window : Memory → ℕ → ℕ → List ℕ
window m a zero = []
window m a (suc n) = m a ∷ window m (a + 1) n

pub length-window : (m : Memory) (a n : ℕ) → length (window m a n) ≡ n
length-window m a zero = refl
length-window m a (suc n) = ap suc (length-window m (a + 1) n)

-- A block is the block of its first bytes and that of the rest.
pub window-append :
    (m : Memory) (a n k t : ℕ) → t ≡ n + k → window m a t ≡ window m a n ++ window m (a + n) k
window-append m a zero k t e =
    let e' : t ≡ k = omega arith in let e'' : a + 0 ≡ a = omega arith in rw (e', e'')
window-append m a (suc n) k zero e = absurd (omega arith)
window-append m a (suc n) k (suc t) e =
    let e' : a + suc n ≡ a + 1 + n = omega arith in
    rw e' (ap (λ (l : List ℕ). m a ∷ l) (window-append m (a + 1) n k t (omega arith)))

-- Two blocks with the same bytes are the same list.
pub window-congr :
    (m m' : Memory) (a b n : ℕ)
    → ((i : ℕ) → i < n → m (a + i) ≡ m' (b + i))
    → window m a n ≡ window m' b n
window-congr m m' a b zero h = refl
window-congr m m' a b (suc n) h = ap₂ ◌∷◌ first (window-congr m m' (a + 1) (b + 1) n rest)
  where
    first : m a ≡ m' b
    first =
        let e : a + 0 ≡ a = omega arith in
        let e' : b + 0 ≡ b = omega arith in ap m (sym_lem e) ∙ h 0 (omega arith) ∙ ap m' e'
      where
        sym_lem : a + 0 ≡ a → a ≡ a + 0
        sym_lem e = omega arith

    rest : (i : ℕ) → i < n → m (a + 1 + i) ≡ m' (b + 1 + i)
    rest i l =
        let e : a + 1 + i ≡ a + suc i = omega arith in
        let e' : b + suc i ≡ b + 1 + i = omega arith in ap m e ∙ h (suc i) (omega arith) ∙ ap m' e'

pub drop-window :
    (m : Memory) (a n t : ℕ) → n ≤ t → drop n (window m a t) ≡ window m (a + n) (t - n)
drop-window m a zero t h =
    let e : a + 0 ≡ a = omega arith in let e' : t - 0 ≡ t = omega arith in rw (e, e')
drop-window m a (suc n) zero h = absurd (omega arith)
drop-window m a (suc n) (suc t) h =
    let e : a + suc n ≡ a + 1 + n = omega arith in
    let e' : suc t - suc n ≡ t - n = omega arith in
    rw (e, e') (drop-window m (a + 1) n t (omega arith))

pub window-constant :
    (m : Memory) (a v n : ℕ) → ((i : ℕ) → i < n → m (a + i) ≡ v) → window m a n ≡ replicate n v
window-constant m a v zero h = refl
window-constant m a v (suc n) h =
    let e : a ≡ a + 0 = omega arith in
    ap₂ ◌∷◌ (ap m e ∙ h 0 (omega arith)) (window-constant m (a + 1) v n rest)
  where
    rest : (i : ℕ) → i < n → m (a + 1 + i) ≡ v
    rest i l = let e : a + 1 + i ≡ a + suc i = omega arith in ap m e ∙ h (suc i) (omega arith)

pub window-memset : (m : Memory) (a v n : ℕ) → window (memset m a v n) a n ≡ replicate n v
window-memset m a v n = window-constant (memset m a v n) a v n (memset-inside m a v n)

pub window-memcpy :
    (m : Memory) (dst src n : ℕ) → window (memcpy m dst src n) dst n ≡ window m src n
window-memcpy m dst src n =
    window-congr (memcpy m dst src n) m dst src n (memcpy-inside m dst src n)

-- A block before the target of a copy is not changed by it.
pub window-memcpy_before :
    (m : Memory) (dst src n a k : ℕ) → a + k ≤ dst → window (memcpy m dst src n) a k ≡ window m a k
window-memcpy_before m dst src n a k h =
    window-congr (memcpy m dst src n) m a a k
      (λ i l. memcpy-outside_below m dst src n (a + i) (omega arith))

pub window-memset_before :
    (m : Memory) (dst v n a k : ℕ) → a + k ≤ dst → window (memset m dst v n) a k ≡ window m a k
window-memset_before m dst v n a k h =
    window-congr (memset m dst v n) m a a k
      (λ i l. memset-outside_below m dst v n (a + i) (omega arith))
