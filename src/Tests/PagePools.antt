-- ===== src/Tests/PagePools.antt =====
-- Pages: page_pool.c on two live pages.
use lcompat.Base.{◌*◌, ◌^◌, ◌<◌, ◌≤◌, ◌≡◌, refl, some, [], ◌∷◌, arith}
use lcompat.PagePool.{
  page_size, find_page, page_alloc, new_page, put_page, dev_alloc_pages, get_order,
}
use lcompat.PagePool.Order.{get_order_least}
use lcompat.Samples.{page_a, two_pages, grant}

-- Without its last reference the second page is gone, and its frames are given back.
put_page-last :
    put_page 2000 two_pages ≡ some (record { live = page_a ∷ []; freed = (16384, 8192) ∷ [] })
unfolding put_page find_page
put_page-last = refl

-- A block of order 52 is a single page.
dev_alloc_pages-wraps :
    (dev_alloc_pages grant 52 two_pages).1 ≡ (dev_alloc_pages grant 0 two_pages).1
unfolding dev_alloc_pages page_alloc new_page
dev_alloc_pages-wraps = refl

get_order_least_example :
    (10000 ≤ page_size * 2 ^ get_order 10000)
    × (0 < get_order 10000 → page_size * 2 ^ get_order 10000 < 2 * 10000)
get_order_least_example = get_order_least 10000 (omega arith)
