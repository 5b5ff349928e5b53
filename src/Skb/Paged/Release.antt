-- ===== src/Skb/Paged/Release.antt =====
-- `lcompat_skb_release_frags` and `kfree_skb` drop exactly the references that a buffer holds.
use lcompat.Base.{
  ℕ, zero, suc, ◌+◌, ◌≤◌, ◌≡◌, ◌≢◌, refl, some, List, [], ◌∷◌, ◌++◌, arith, ◌==◌, if◌then◌else◌,
  inl, inr, Bool-cases, length, take, drop, replicate,
}
use lcompat.PagePool.{Pages, put_page}
use lcompat.PagePool.Invariant.{IsValid}
use lcompat.PagePool.Refcount.{refcount, put_page-Put}
use lcompat.Skb.{SkBuff, Frag, Kernel, no_frag}
use lcompat.Skb.Paged.{release_loop, kfree_skb}

-- The references that fragments hold to the page `p`.
unfoldable pub refs : ℕ → List Frag → ℕ
refs p [] = 0
refs p (f ∷ fs) = refs p fs + (if p == f.page then 1 else 0)

-- Every reference to a page (0 is NULL) is counted by the page.
abbrev pub Holds : (ℕ → ℕ) → Pages → Type 0
Holds held k = (p : ℕ) → p ≢ 0 → held p ≤ refcount p k

-- The page list after the references `held` are dropped.
pub record Dropped (held : ℕ → ℕ) (k k' : Pages) : Type 0 where
  pub valid : IsValid k'
  pub counts : (p : ℕ) → p ≢ 0 → refcount p k ≡ refcount p k' + held p

put_page-null : (k : Pages) → put_page 0 k ≡ some k
unfolding put_page
put_page-null k = refl

pub release_loop-Dropped :
    (n : ℕ) (fs : List Frag) (k : Pages)
    → IsValid k
    → n ≤ length fs
    → Holds (λ p. refs p (take n fs)) k
    → (k' : Pages) × (release_loop n fs k ≡ some (replicate n no_frag ++ drop n fs, k'))
      × Dropped (λ p. refs p (take n fs)) k k'
unfolding release_loop refs
release_loop-Dropped zero fs k v l h = (k, refl, record { valid = v; counts = λ p nz. omega arith })
release_loop-Dropped (suc n) [] k v l h = absurd (omega arith)
release_loop-Dropped (suc n) (f ∷ fs) k v l h = elim (Bool-cases (f.page == 0)) [
  | inl e ↦
      let (k', e', d) =
        release_loop-Dropped n fs k v (omega arith) (λ p nz. ground (arith, h p nz)) in
      let e0 : f.page ≡ 0 = ground arith in
      (
        k',
        rw (e0, put_page-null k, e'),
        record { valid = d.valid; counts = λ p nz. ground (arith, d.counts p nz) },
      )
  | inr e ↦
      let nz0 : f.page ≢ 0 = ground arith in
      let (k1, e1, d1) = put_page-Put f.page k v (ground (arith, h f.page nz0)) in
      let (k', e', d) =
        release_loop-Dropped n fs k1 d1.valid (omega arith)
          (λ p nz. ground (arith, h p nz, d1.counts p)) in
      (
        k',
        rw (e1, e'),
        record { valid = d.valid; counts = λ p nz. ground (arith, d.counts p nz, d1.counts p) },
      )
]

-- The references of a whole buffer: one for each used fragment, and one for its head.
unfoldable pub held : SkBuff → ℕ → ℕ
unfolding refs
held s p = refs p (take s.nr_frags s.frags) + (if p == s.head_page then 1 else 0)

-- On a well-formed page list, freeing a buffer whose references to its fragments and its head are
-- counted by the pages never faults: the list stays well-formed and every page loses exactly the
-- references that the buffer held. `kfree` gets the buffer, and its head where that is not a page.
pub kfree_skb-Dropped :
    (s : SkBuff) (k : Kernel)
    → IsValid k.pages
    → s.nr_frags ≤ length s.frags
    → Holds (held s) k.pages
    → (k' : Kernel) × (kfree_skb (some s) k ≡ some k')
      × Dropped (held s) k.pages k'.pages
      × (k'.kfreed ≡ s.ptr ∷ (if s.head_page == 0 then s.head ∷ k.kfreed else k.kfreed))
      × (k'.mem ≡ k.mem)
unfolding kfree_skb held
kfree_skb-Dropped s k v l h =
    let (k1, e1, d1) =
      release_loop-Dropped s.nr_frags s.frags k.pages v l (λ p nz. omega (arith, h p nz)) in
    elim (Bool-cases (s.head_page == 0)) [
      | inl e ↦ (
        record k { pages = k1; kfreed = s.ptr ∷ s.head ∷ k.kfreed },
        ground (arith, e1),
        record { valid = d1.valid; counts = λ p nz. ground (arith, d1.counts p nz) },
        ground arith,
        refl,
      )
      | inr e ↦
          let nz0 : s.head_page ≢ 0 = ground arith in
          let (k2, e2, d2) =
            put_page-Put s.head_page k1 d1.valid
              (ground (arith, h s.head_page nz0, d1.counts s.head_page nz0)) in
          (
            record k { pages = k2; kfreed = s.ptr ∷ k.kfreed },
            ground (arith, e1, e2),
            record {
              valid = d2.valid;
              counts = λ p nz. ground (arith, d1.counts p nz, d2.counts p);
            },
            ground arith,
            refl,
          )
    ]
