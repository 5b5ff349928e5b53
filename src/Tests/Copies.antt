-- ===== src/Tests/Copies.antt =====
-- Socket buffers that get new memory: `alloc_skb`, `skb_copy` and `skb_cow_head` of skbuff.h.
use lcompat.Base.{◌≢◌, ◌<◌, ◌≡◌, some, arith, ok}
use lcompat.PagePool.{find_page, get_order}
use lcompat.PagePool.Invariant.{IsValid as PagesOk}
use lcompat.PagePool.Refcount.{Put, refcount}
use lcompat.Skb.{Kernel}
use lcompat.Skb.Bounds.{IsValid}
use lcompat.Skb.Contents.{contents}
use lcompat.Skb.Alloc.{alloc_skb, skb_copy, skb_cow_head}
use lcompat.Skb.Alloc.Fresh.{Granted, Backed, fresh_skb, with_block, alloc_skb-Backed}
use lcompat.Skb.Alloc.Copies.{copied, moved, contents-skb_copy, contents-skb_cow_head}
use lcompat.Samples.{
  two_pages, two_pages-PagesOk, grant, grant-IsUnused, paged, paged-IsValid, kernel,
}

-- A single page is enough for the sizes below.
Granted-small : Granted grant 200 two_pages
unfolding get_order
Granted-small = (omega arith, omega arith, grant-IsUnused)

Granted-cow : Granted grant 236 two_pages
unfolding get_order
Granted-cow = (omega arith, omega arith, grant-IsUnused)

head_held : 0 < refcount 2000 (with_block grant 236 two_pages)
unfolding refcount find_page
head_held = omega arith

alloc_skb-Backed_example :
    (alloc_skb 600 grant 200 kernel
      ≡ some (
        some (fresh_skb 600 grant 200),
        record kernel { pages = with_block grant 200 two_pages },
      ))
    × IsValid (fresh_skb 600 grant 200)
    × Backed (fresh_skb 600 grant 200) (with_block grant 200 two_pages)
    × PagesOk (with_block grant 200 two_pages)
alloc_skb-Backed_example =
    alloc_skb-Backed 600 grant 200 kernel (omega arith) (omega arith) two_pages-PagesOk
      Granted-small

contents-skb_copy_example :
    (k' : Kernel) × (skb_copy (some paged) 600 grant kernel
      ≡ some (some (copied paged 600 grant), k'))
    × IsValid (copied paged 600 grant)
    × (contents k'.mem (copied paged 600 grant) ≡ contents kernel.mem paged)
    × PagesOk k'.pages
contents-skb_copy_example =
    contents-skb_copy paged 600 grant kernel paged-IsValid (omega arith) two_pages-PagesOk
      Granted-small

contents-skb_cow_head_example :
    (k' : Kernel) × (skb_cow_head (some paged) 100 grant kernel
      ≡ some (ok 0, some (moved paged 100 grant), k'))
    × IsValid (moved paged 100 grant)
    × (contents k'.mem (moved paged 100 grant) ≡ contents kernel.mem paged)
    × PagesOk k'.pages
    × (paged.head_page ≢ 0 → Put 2000 (with_block grant 236 two_pages) k'.pages)
contents-skb_cow_head_example =
    contents-skb_cow_head paged 100 grant kernel paged-IsValid (omega arith) (omega arith)
      two_pages-PagesOk Granted-cow (λ nz. head_held)
