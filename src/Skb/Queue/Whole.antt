-- ===== src/Skb/Queue/Whole.antt =====
-- The operations that run over a whole queue: `skb_queue_purge` and `skb_queue_splice_tail_init`.
use lcompat.Base.{
  ℕ, zero, suc, ◌+◌, ◌<◌, ◌≡◌, refl, sym, ap, subst, ◌∙◌, false, Option, some, List, [], ◌∷◌, ◌++◌,
  arith, ◌==◌, length, length-append, ◌>>=◌, Option-cases, Bool-cases, inl, inr,
}
use mathlib.Core.Option.{none-ne-some}
use mathlib.Core.List.{append-nil, append_assoc}
use lcompat.Base.Words.{u32_mod}
use lcompat.Chain.{Links, Ends, update, append, pop}
use lcompat.Chain.Rep.{NotIn, last, Chain, IsQueue, Chain-update, NotIn-append, last-ne_NotIn}
use lcompat.Skb.{SkBuff, Kernel}
use lcompat.Skb.Paged.{kfree_skb}
use lcompat.Skb.Queue.{SkBuffHead, dequeue, queue_tail, splice_loop, skb_queue_purge}
use lcompat.Skb.Queue.Laws.{Queued, dequeue-Queued, dequeue-empty, queue_tail-Queued}

-- Each of the buffers freed, in order.
unfoldable pub kfree_all : (ℕ → SkBuff) → List ℕ → Kernel → Option Kernel
kfree_all skbs [] k = some k
kfree_all skbs (x ∷ xs) k = kfree_skb (some (skbs x)) k >>= λ k'. kfree_all skbs xs k'

purge-next :
    (fuel : ℕ) (skbs : ℕ → SkBuff) (next : Links) (q : SkBuffHead) (x : ℕ) (xs : List ℕ)
    (k k' : Kernel)
    → Queued next q (x ∷ xs)
    → kfree_skb (some (skbs x)) k ≡ some k'
    → let (y, next', q') = dequeue next q in
      skb_queue_purge (suc fuel) skbs next q k ≡ skb_queue_purge fuel skbs next' q' k'
unfolding skb_queue_purge
purge-next fuel skbs next q x xs k k' h e =
    let (at, cleared, r) = dequeue-Queued next q x xs h in
    let t0 : (x == 0) ≡ false = ground (arith, h.queue.chain) in rw (at, t0, e) refl

-- When the buffers can be freed one after the other, `skb_queue_purge` returns with fuel for each of
-- them: it frees exactly them, from head to tail, and leaves an empty queue.
pub skb_queue_purge-kfree_all :
    (fuel : ℕ) (skbs : ℕ → SkBuff) (next : Links) (q : SkBuffHead) (xs : List ℕ) (k k' : Kernel)
    → Queued next q xs
    → kfree_all skbs xs k ≡ some k'
    → length xs < fuel
    → (next' : Links) × (q' : SkBuffHead) × (skb_queue_purge fuel skbs next q k
        ≡ some (next', q', k'))
      × Queued next' q' []
unfolding kfree_all
skb_queue_purge-kfree_all zero skbs next q xs k k' h free f = absurd (omega arith)
skb_queue_purge-kfree_all (suc fuel) skbs next q [] k k' h free f = (
  next,
  q,
  unfold skb_queue_purge in
      rw (dequeue-empty next q h) (ap (λ (o : Option Kernel). o >>= λ c. some (next, q, c)) free),
  h,
)
skb_queue_purge-kfree_all (suc fuel) skbs next q (x ∷ xs) k k' h free f =
    elim (Option-cases (kfree_skb (some (skbs x)) k)) [
      | inl e ↦ absurd (none-ne-some k' (rw e at free))
      | inr e ↦
          let (at, cleared, r) = dequeue-Queued next q x xs h in
          let (next', q', eq, done) =
            skb_queue_purge-kfree_all fuel skbs (dequeue next q).1 (dequeue next q).2 xs e.0 k' r
              (rw e.1 at free) (omega arith) in
          (next', q', purge-next fuel skbs next q x xs k e.0 h e.1 ∙ eq, done)
    ]

-- No object of the one list is in the other.
abbrev pub Apart : List ℕ → List ℕ → Type 0
Apart [] ys = Unit {0}
Apart (x ∷ xs) ys = NotIn x ys × Apart xs ys

-- Appending to another queue leaves a chain alone that holds neither the object nor the other's tail.
Chain-append_elsewhere :
    (next : Links) (e : Ends) (p x : ℕ) (xs : List ℕ)
    → NotIn x xs
    → NotIn e.tail xs
    → Chain next p xs
    → Chain (append x next e).0 p xs
unfolding append
Chain-append_elsewhere next e p x xs a b c = elim (Bool-cases (e.tail == 0)) [
  | inl t ↦ rw t (Chain-update next p x 0 xs a c)
  | inr t ↦ rw t (Chain-update (update next x 0) p e.tail x xs b (Chain-update next p x 0 xs a c))
]

-- Taking from another queue leaves a chain alone that does not hold the object.
Chain-pop_elsewhere :
    (next : Links) (e : Ends) (p : ℕ) (xs : List ℕ)
    → NotIn e.head xs
    → Chain next p xs
    → Chain (pop next e).1 p xs
unfolding pop
Chain-pop_elsewhere next e p xs a c = elim (Bool-cases (e.head == 0)) [
  | inl t ↦ rw t c
  | inr t ↦ rw t (Chain-update next p e.head 0 xs a c)
]

-- What the queues hold while the loop of a splice runs.
record Splicing (next : Links) (from to : SkBuffHead) (xs ys : List ℕ) : Type 0 where
  source : Queued next from xs
  target : Queued next to ys
  apart : Apart xs ys
  fits : length ys + length xs < u32_mod

tail-NotIn :
    (next : Links) (p : ℕ) (xs ys : List ℕ) → Chain next p xs → Apart xs ys → NotIn (last 0 ys) xs
tail-NotIn next p [] ys c a = tt
tail-NotIn next p (x ∷ xs) ys c a =
    ((λ e. last-ne_NotIn x 0 ys c.1 a.0 (sym e)), tail-NotIn next (next x) xs ys c.3 a.1)

Apart-append : (x : ℕ) (xs ys : List ℕ) → NotIn x xs → Apart xs ys → Apart xs (ys ++ (x ∷ []))
Apart-append x [] ys n a = tt
Apart-append x (z ∷ zs) ys n a =
    (NotIn-append z x ys a.0 (λ e. n.0 (sym e)), Apart-append x zs ys n.1 a.1)

splice-step :
    (next : Links) (from to : SkBuffHead) (x : ℕ) (xs ys : List ℕ)
    → Splicing next from to (x ∷ xs) ys
    → let (y, next1, from') = dequeue next from in
      let (next2, to') = queue_tail x next1 to in
      (y ≡ x) × Splicing next2 from' to' xs (ys ++ (x ∷ []))
unfolding dequeue queue_tail
splice-step next from to x xs ys s =
    let (at, cleared, r) = dequeue-Queued next from x xs s.source in
    let (head, nz, alone, behind) = s.source.queue.chain in
    let kept : IsQueue (pop next from.list).1 to.list ys = record {
      chain =
          Chain-pop_elsewhere next from.list to.list.head ys (rw head s.apart.0)
            s.target.queue.chain;
      end = s.target.queue.end;
    } in
    let out : NotIn to.list.tail xs =
      rw s.target.queue.end (tail-NotIn next (next x) xs ys behind s.apart.1) in
    let n : length (ys ++ (x ∷ [])) ≡ length ys + 1 = length-append ys (x ∷ []) in
    (
      at,
      record {
        source = record {
          queue = record {
            chain =
                Chain-append_elsewhere (dequeue next from).1 to.list (dequeue next from).2.list.head
                  x xs alone out r.queue.chain;
            end = r.queue.end;
          };
          count = r.count;
          fits = r.fits;
        };
        target =
            queue_tail-Queued x (dequeue next from).1 to ys nz s.apart.0 (omega (arith, s.fits))
              (record { queue = kept; count = s.target.count; fits = s.target.fits });
        apart = Apart-append x xs ys alone s.apart.1;
        fits = omega (arith, s.fits, n);
      },
    )

splice-next :
    (fuel : ℕ) (next : Links) (from to : SkBuffHead) (x : ℕ) (xs : List ℕ)
    → Queued next from (x ∷ xs)
    → let (y, next1, from') = dequeue next from in
      let (next2, to') = queue_tail x next1 to in
      splice_loop (suc fuel) next from to ≡ splice_loop fuel next2 from' to'
unfolding splice_loop
splice-next fuel next from to x xs h =
    let (at, cleared, r) = dequeue-Queued next from x xs h in
    let t0 : (x == 0) ≡ false = ground (arith, h.queue.chain) in rw (at, t0) refl

splice_loop-Splicing :
    (fuel : ℕ) (next : Links) (from to : SkBuffHead) (xs ys : List ℕ)
    → Splicing next from to xs ys
    → length xs < fuel
    → (next' : Links) × (from' : SkBuffHead) × (to' : SkBuffHead) × (splice_loop fuel next from to
        ≡ some (next', from', to'))
      × Splicing next' from' to' [] (ys ++ xs)
splice_loop-Splicing zero next from to xs ys s f = absurd (omega arith)
splice_loop-Splicing (suc fuel) next from to [] ys s f = (
  next,
  from,
  to,
  unfold splice_loop in rw (dequeue-empty next from s.source) refl,
  rw (append-nil ys) s,
)
splice_loop-Splicing (suc fuel) next from to (x ∷ xs) ys s f =
    let (at, s') = splice-step next from to x xs ys s in
    let next1 = (dequeue next from).1 in
    let (next', from', to', eq, done) =
      splice_loop-Splicing fuel (queue_tail x next1 to).0 (dequeue next from).2
        (queue_tail x next1 to).1 xs (ys ++ (x ∷ [])) s' (omega arith) in
    (
      next',
      from',
      to',
      splice-next fuel next from to x xs s.source ∙ eq,
      subst (λ l. Splicing next' from' to' [] l) (append_assoc ys (x ∷ []) xs) done,
    )

-- `skb_queue_splice_tail_init` of two queues without a common buffer returns with fuel for the buffers
-- of the first: they are behind those of the second then, in their order, and the first is empty.
pub splice_loop-Queued :
    (fuel : ℕ) (next : Links) (from to : SkBuffHead) (xs ys : List ℕ)
    → Queued next from xs
    → Queued next to ys
    → Apart xs ys
    → length ys + length xs < u32_mod
    → length xs < fuel
    → (next' : Links) × (from' : SkBuffHead) × (to' : SkBuffHead) × (splice_loop fuel next from to
        ≡ some (next', from', to'))
      × Queued next' from' []
      × Queued next' to' (ys ++ xs)
splice_loop-Queued fuel next from to xs ys a b c d f =
    let (next', from', to', eq, s) =
      splice_loop-Splicing fuel next from to xs ys
        (record { source = a; target = b; apart = c; fits = d }) f in
    (next', from', to', eq, s.source, s.target)
