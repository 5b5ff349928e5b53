-- ===== src/Tests/Queues.antt =====
-- Queues of socket buffers: `struct sk_buff_head` of skbuff.h with three and with two buffers.
use lcompat.Base.{◌≡◌, refl, Option, some, [], ◌∷◌, arith, true}
use lcompat.Chain.{Links}
use lcompat.Chain.Rep.{has, erase}
use lcompat.Skb.{Kernel}
use lcompat.Skb.Paged.{kfree_skb, release_frags, release_loop}
use lcompat.Skb.Queue.{SkBuffHead, skb_unlink, splice_loop, skb_queue_purge}
use lcompat.Skb.Queue.Laws.{IsQueued, Queued, skb_unlink-IsQueued}
use lcompat.Skb.Queue.Whole.{kfree_all, skb_queue_purge-kfree_all, splice_loop-Queued}
use lcompat.Samples.{links, three, pair, three-Queued, pair-Queued, kernel, plain}

skb_unlink-IsQueued_example :
    (next' : Links) × (q' : Option SkBuffHead) × (skb_unlink 4 20 links (some three)
      ≡ some (next', q'))
    × IsQueued next' q' (erase 20 (10 ∷ 20 ∷ 30 ∷ []))
    × (has 20 (10 ∷ 20 ∷ 30 ∷ []) ≡ true → next' 20 ≡ 0)
skb_unlink-IsQueued_example =
    skb_unlink-IsQueued 4 20 links (some three) (10 ∷ 20 ∷ 30 ∷ []) (omega arith) three-Queued
      (omega arith)

-- Buffers whose heads came from `kfree`-able memory.
abbrev after_purge : Kernel
after_purge = record kernel { kfreed = 500 ∷ 16384 ∷ 500 ∷ 16384 ∷ [] }

frees : kfree_all (λ p. record plain { head_page = 0 }) (40 ∷ 50 ∷ []) kernel ≡ some after_purge
unfolding kfree_all kfree_skb release_frags release_loop
frees = refl

skb_queue_purge-kfree_all_example :
    (next' : Links) × (q' : SkBuffHead) × (skb_queue_purge 3
        (λ p. record plain { head_page = 0 })
        links
        pair
        kernel
      ≡ some (next', q', after_purge))
    × Queued next' q' []
skb_queue_purge-kfree_all_example =
    skb_queue_purge-kfree_all 3 (λ p. record plain { head_page = 0 }) links pair (40 ∷ 50 ∷ [])
      kernel after_purge pair-Queued frees (omega arith)

splice_loop-Queued_example :
    (next' : Links) × (from' : SkBuffHead) × (to' : SkBuffHead) × (splice_loop 3 links pair three
      ≡ some (next', from', to'))
    × Queued next' from' []
    × Queued next' to' (10 ∷ 20 ∷ 30 ∷ 40 ∷ 50 ∷ [])
splice_loop-Queued_example =
    splice_loop-Queued 3 links pair three (40 ∷ 50 ∷ []) (10 ∷ 20 ∷ 30 ∷ []) pair-Queued
      three-Queued (omega arith) (omega arith) (omega arith)
