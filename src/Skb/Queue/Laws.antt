-- ===== src/Skb/Queue/Laws.antt =====
-- The queue operations, as operations on the sequence of buffers.
use lcompat.Base.{
  ℕ, ◌+◌, ◌-◌, ◌<◌, ◌≡◌, ◌≢◌, refl, true, false, Option, none, some, List, [], ◌∷◌, ◌++◌, arith,
  ltb, ◌==◌, if◌then◌else◌, length, length-append, Bool-cases, inl, inr,
}
use lcompat.Base.Words.{u32_mod}
use lcompat.Chain.{Links}
use lcompat.Chain.Rep.{NotIn, has, erase, IsQueue}
use lcompat.Chain.Laws.{append-IsQueue, push_front-IsQueue, pop-IsQueue, pop-empty}
use lcompat.Chain.Unlink.{unlink-Unlinked}
use lcompat.Skb.Queue.{
  SkBuffHead, skb_peek, skb_queue_empty, skb_queue_len, queue_tail, skb_queue_tail, skb_queue_head,
  dequeue, skb_dequeue, skb_unlink,
}

-- The queue holds the buffers `xs`, from head to tail, and `qlen` counts them.
pub record Queued (next : Links) (q : SkBuffHead) (xs : List ℕ) : Type 0 where
  pub queue : IsQueue next q.list xs
  pub count : q.qlen ≡ length xs
  pub fits : length xs < u32_mod

abbrev pub IsQueued : Links → Option SkBuffHead → List ℕ → Type 0
IsQueued next none xs = ⊥
IsQueued next (some q) xs = Queued next q xs

length-snoc : (x : ℕ) (xs : List ℕ) → length (xs ++ (x ∷ [])) ≡ length xs + 1
length-snoc x xs = length-append xs (x ∷ [])

pub queue_tail-Queued :
    (x : ℕ) (next : Links) (q : SkBuffHead) (xs : List ℕ)
    → x ≢ 0
    → NotIn x xs
    → length xs + 1 < u32_mod
    → Queued next q xs
    → let (next', q') = queue_tail x next q in Queued next' q' (xs ++ (x ∷ []))
unfolding queue_tail
queue_tail-Queued x next q xs nz out f h =
    let n : length (xs ++ (x ∷ [])) ≡ length xs + 1 = length-snoc x xs in
    record {
      queue = append-IsQueue x next q.list xs nz out h.queue;
      count = rw (n, h.count) (omega arith);
      fits = rw n f;
    }

-- `skb_queue_tail` puts a buffer that is not NULL and not in the queue behind all others, while the
-- count fits an `unsigned int`.
pub skb_queue_tail-IsQueued :
    (x : ℕ) (next : Links) (q : Option SkBuffHead) (xs : List ℕ)
    → x ≢ 0
    → NotIn x xs
    → length xs + 1 < u32_mod
    → IsQueued next q xs
    → let (next', q') = skb_queue_tail x next q in IsQueued next' q' (xs ++ (x ∷ []))
unfolding skb_queue_tail
skb_queue_tail-IsQueued x next none xs nz out f h = absurd h
skb_queue_tail-IsQueued x next (some q) xs nz out f h =
    let t0 : (x == 0) ≡ false = ground arith in rw t0 (queue_tail-Queued x next q xs nz out f h)

-- `skb_queue_head` puts a buffer that is not NULL and not in the queue before all others, while the
-- count fits an `unsigned int`.
pub skb_queue_head-IsQueued :
    (x : ℕ) (next : Links) (q : Option SkBuffHead) (xs : List ℕ)
    → x ≢ 0
    → NotIn x xs
    → length xs + 1 < u32_mod
    → IsQueued next q xs
    → let (next', q') = skb_queue_head x next q in IsQueued next' q' (x ∷ xs)
unfolding skb_queue_head
skb_queue_head-IsQueued x next none xs nz out f h = absurd h
skb_queue_head-IsQueued x next (some q) xs nz out f h =
    let t0 : (x == 0) ≡ false = ground arith in
    rw t0 (record {
      queue = push_front-IsQueue x next q.list xs nz out h.queue;
      count = rw h.count (omega arith);
      fits = omega arith;
    })

pub dequeue-Queued :
    (next : Links) (q : SkBuffHead) (x : ℕ) (xs : List ℕ)
    → Queued next q (x ∷ xs)
    → let (y, next', q') = dequeue next q in (y ≡ x) × (next' x ≡ 0) × Queued next' q' xs
unfolding dequeue
dequeue-Queued next q x xs h =
    let (at, cleared, queue) = pop-IsQueue next q.list x xs h.queue in
    let t0 : (x == 0) ≡ false = ground (arith, h.queue.chain) in
    (
      at,
      cleared,
      record {
        queue = queue;
        count = rw (at, t0, h.count) (omega (arith, h.fits));
        fits = omega (arith, h.fits);
      },
    )

pub dequeue-empty :
    (next : Links) (q : SkBuffHead) → Queued next q [] → dequeue next q ≡ (0, next, q)
unfolding dequeue
dequeue-empty next q h = rw (pop-empty next q.list h.queue) refl

-- The first of the buffers, 0 (NULL) where there is none, and the others.
unfoldable pub first : List ℕ → ℕ
first [] = 0
first (x ∷ xs) = x

unfoldable pub rest : List ℕ → List ℕ
rest [] = []
rest (x ∷ xs) = xs

-- `skb_dequeue` takes the first buffer, the one that `skb_peek` shows, or returns NULL on an empty
-- queue; `skb_queue_len` is the number of buffers and `skb_queue_empty` says whether the first is
-- NULL.
pub skb_dequeue-IsQueued :
    (next : Links) (q : Option SkBuffHead) (xs : List ℕ)
    → IsQueued next q xs
    → let (x, next', q') = skb_dequeue next q in
      (x ≡ first xs)
      × (skb_peek q ≡ x)
      × IsQueued next' q' (rest xs)
      × (skb_queue_len q ≡ length xs)
      × (skb_queue_empty q ≡ (x == 0))
unfolding skb_dequeue first rest skb_peek skb_queue_len skb_queue_empty
skb_dequeue-IsQueued next none xs h = absurd h
skb_dequeue-IsQueued next (some q) [] h =
    rw (dequeue-empty next q h) (refl, h.queue.chain, h, h.count, rw h.count refl)
skb_dequeue-IsQueued next (some q) (x ∷ xs) h =
    let (at, cleared, r) = dequeue-Queued next q x xs h in
    rw at (refl, h.queue.chain.0, r, h.count, rw h.count (ground (arith, h.queue.chain)))

length-erase : (x : ℕ) (xs : List ℕ) → length (erase x xs) + (if has x xs then 1 else 0) ≡ length xs
unfolding erase has
length-erase x [] = refl
length-erase x (y ∷ ys) = elim (Bool-cases (y == x)) [
  | inl hit ↦ rw hit (omega arith)
  | inr miss ↦ rw miss (ground (arith, length-erase x ys))
]

-- With fuel for the walk over the queue, `skb_unlink` of a buffer that is not NULL returns: it takes
-- the buffer out of the queue if it is there, with its link cleared and the count adapted, and
-- otherwise the queue holds what it held.
pub skb_unlink-IsQueued :
    (fuel x : ℕ) (next : Links) (q : Option SkBuffHead) (xs : List ℕ)
    → x ≢ 0
    → IsQueued next q xs
    → length xs < fuel
    → (next' : Links) × (q' : Option SkBuffHead) × (skb_unlink fuel x next q ≡ some (next', q'))
      × IsQueued next' q' (erase x xs)
      × (has x xs ≡ true → next' x ≡ 0)
unfolding skb_unlink
skb_unlink-IsQueued fuel x next none xs nz h f = absurd h
skb_unlink-IsQueued fuel x next (some q) xs nz h f =
    let t0 : (x == 0) ≡ false = ground arith in
    let (next', e, eq, u) = unlink-Unlinked fuel x next q.list xs h.queue f in
    let n : length (erase x xs) + (if has x xs then 1 else 0) ≡ length xs = length-erase x xs in
    (
      next',
      some (record {
        list = e;
        qlen = if has x xs then (if ltb 0 q.qlen then q.qlen - 1 else q.qlen) else q.qlen;
      }),
      rw (t0, eq) refl,
      record {
        queue = u.queue;
        count = ground (arith, h.count, n);
        fits = ground (arith, h.fits, n);
      },
      u.cleared,
    )
