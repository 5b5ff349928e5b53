-- ===== src/Tests/Buffers.antt =====
-- Socket buffers: include/linux/skbuff.h on a linear buffer and on one with a fragment.
use lcompat.Base.{◌≡◌, refl, some, [], ◌∷◌, arith, true}
use lcompat.PagePool.{find_page}
use lcompat.PagePool.Refcount.{refcount}
use lcompat.Skb.{Kernel, bounds_ok, valid_bounds}
use lcompat.Skb.History.{put, push, pull, reset, run, IsLinear, run-IsLinear}
use lcompat.Skb.Paged.{kfree_skb}
use lcompat.Skb.Paged.Release.{refs, held, Holds, Dropped, kfree_skb-Dropped}
use lcompat.Skb.Paged.Laws.{frag_refs}
use lcompat.Samples.{two_pages, two_pages-PagesOk, plain, paged, plain-IsValid, kernel}

-- The sample buffers pass the check that the functions make.
valid_bounds-samples : (valid_bounds (some plain) ≡ true) × (valid_bounds (some paged) ≡ true)
unfolding valid_bounds bounds_ok
valid_bounds-samples = (refl, refl)

Holds-held : Holds (held paged) two_pages
unfolding held refs refcount find_page
Holds-held p nz = ground arith

Holds-frags : Holds (frag_refs paged) two_pages
unfolding refs refcount find_page
Holds-frags p nz = ground arith

run-IsLinear_example :
    IsLinear 16384 200 (run (pull 14 ∷ put 60 ∷ push 8 ∷ reset ∷ []) (some plain))
run-IsLinear_example =
    run-IsLinear 16384 200 (pull 14 ∷ put 60 ∷ push 8 ∷ reset ∷ []) (some plain)
      (record { valid = plain-IsValid; no_frags = refl; head_kept = refl; end_kept = refl })

kfree_skb-Dropped_example :
    (k' : Kernel) × (kfree_skb (some paged) kernel ≡ some k')
    × Dropped (held paged) two_pages k'.pages
    × (k'.kfreed ≡ 500 ∷ [])
    × (k'.mem ≡ kernel.mem)
kfree_skb-Dropped_example =
    kfree_skb-Dropped paged kernel two_pages-PagesOk (omega arith) Holds-held
