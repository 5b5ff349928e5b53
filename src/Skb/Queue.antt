-- ===== src/Skb/Queue.antt =====
-- include/linux/skbuff.h: `struct sk_buff_head` and the functions on it. A buffer is the address of its
-- `struct sk_buff`, 0 is NULL; a `struct sk_buff_head *` that may be NULL is an Option. The spinlock is
-- not modelled: each function is one step.
pub mod Laws
pub mod Whole
use lcompat.Base.{
  ℕ, zero, suc, ◌-◌, Bool, true, false, Option, none, some, ltb, ◌==◌, if◌then◌else◌, ◌>>=◌,
}
use lcompat.Base.Words.{add_u32, sub_u32}
use lcompat.Chain.{Links, Ends, ends, append, push_front, pop, unlink}
use lcompat.Skb.{SkBuff, Kernel}
use lcompat.Skb.Paged.{kfree_skb}

pub record SkBuffHead : Type 0 where
  pub list : Ends
  pub qlen : ℕ

-- `skb_queue_head_init`
unfoldable pub skb_queue_head_init : Option SkBuffHead → Option SkBuffHead
skb_queue_head_init none = none
skb_queue_head_init (some q) = some (record { list = ends 0 0; qlen = 0 })

-- `skb_peek`
unfoldable pub skb_peek : Option SkBuffHead → ℕ
skb_peek none = 0
skb_peek (some q) = q.list.head

-- `skb_queue_empty`
unfoldable pub skb_queue_empty : Option SkBuffHead → Bool
skb_queue_empty none = true
skb_queue_empty (some q) = q.qlen == 0

-- `skb_queue_len`
unfoldable pub skb_queue_len : Option SkBuffHead → ℕ
skb_queue_len none = 0
skb_queue_len (some q) = q.qlen

-- `__skb_queue_tail`
unfoldable pub queue_tail : ℕ → Links → SkBuffHead → Links × SkBuffHead
queue_tail x next q =
    let (next', e) = append x next q.list in (next', record { list = e; qlen = add_u32 q.qlen 1 })

-- `skb_queue_tail`
unfoldable pub skb_queue_tail : ℕ → Links → Option SkBuffHead → Links × Option SkBuffHead
skb_queue_tail x next none = (next, none)
skb_queue_tail x next (some q) =
    if x == 0 then (next, some q) else (let (next', q') = queue_tail x next q in (next', some q'))

-- `skb_queue_head`
unfoldable pub skb_queue_head : ℕ → Links → Option SkBuffHead → Links × Option SkBuffHead
skb_queue_head x next none = (next, none)
skb_queue_head x next (some q) =
    if x == 0
    then (next, some q)
    else (let (next', e) = push_front x next q.list in
        (next', some (record { list = e; qlen = add_u32 q.qlen 1 })))

-- The body that `skb_dequeue` and `__skb_dequeue` share.
unfoldable pub dequeue : Links → SkBuffHead → ℕ × Links × SkBuffHead
dequeue next q =
    let (x, next', e) = pop next q.list in
    (x, next', record { list = e; qlen = if x == 0 then q.qlen else sub_u32 q.qlen 1 })

-- `skb_dequeue`, `__skb_dequeue`
unfoldable pub skb_dequeue : Links → Option SkBuffHead → ℕ × Links × Option SkBuffHead
skb_dequeue next none = (0, next, none)
skb_dequeue next (some q) = let (x, next', q') = dequeue next q in (x, next', some q')

-- `skb_unlink`, `__skb_unlink`; the fuel bounds the walk, `none` when it runs out.
unfoldable pub skb_unlink :
    (fuel x : ℕ) → Links → Option SkBuffHead → Option (Links × Option SkBuffHead)
skb_unlink fuel x next none = some (next, none)
skb_unlink fuel x next (some q) = if x == 0 then some (next, some q) else (do
  (found, next', e) ← unlink fuel x next q.list
  some (
    next',
    some (record {
      list = e;
      qlen = if found then (if ltb 0 q.qlen then q.qlen - 1 else q.qlen) else q.qlen;
    }),
  ))

-- The loop of `skb_queue_splice_tail_init`.
unfoldable pub splice_loop :
    (fuel : ℕ) → Links → (from to : SkBuffHead) → Option (Links × SkBuffHead × SkBuffHead)
splice_loop zero next from to = none
splice_loop (suc fuel) next from to =
    let (x, next1, from') = dequeue next from in
    let (next2, to') = queue_tail x next1 to in
    let rest = splice_loop fuel next2 from' to' in if x == 0 then some (next1, from', to) else rest

-- `skb_queue_purge`: the buffers stand at their addresses in `skbs`.
unfoldable pub skb_queue_purge :
    (fuel : ℕ) → (ℕ → SkBuff) → Links → SkBuffHead → Kernel → Option (Links × SkBuffHead × Kernel)
skb_queue_purge zero skbs next q k = none
skb_queue_purge (suc fuel) skbs next q k =
    let (x, next', q') = dequeue next q in
    let rest = λ (k' : Kernel). skb_queue_purge fuel skbs next' q' k' in
    if x == 0 then some (next', q', k) else (kfree_skb (some (skbs x)) k >>= rest)
