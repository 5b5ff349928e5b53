-- ===== src/PagePool.antt =====
-- page_pool.c and include/linux/mm.h: reference-counted pages on the global list `lcompat_pages`.
-- The list is the sequence of its pages; a `struct page` is known by its address. What `kzalloc` and
-- `alloc_frames_bytes` return is an argument (`Grant`); calls of `free_frames_bytes` are logged.
-- The lock serialises the operations, so each is one step.
pub mod Order
pub mod Invariant
pub mod Lists
pub mod Counts
pub mod Refcount
pub mod Blocks
pub mod Lookup
use lcompat.Base.{
  ℕ, zero, suc, ◌+◌, ◌-◌, ◌*◌, ◌/◌, ◌%◌, ◌^◌, ◌++◌, Bool, true, false, ◌&&◌, Option, none, some,
  List, [], ◌∷◌, map, ltb, leb, ◌==◌, if◌then◌else◌,
}
use lcompat.Base.Words.{u64_mod, ulong_max, add_u32, sub_u32, add_u64}

-- `struct page`; `ptr` is its own address, `pp` that of its pool (0 is NULL).
pub record Page : Type 0 where
  pub ptr : ℕ
  pub addr : ℕ
  pub size : ℕ
  pub pp : ℕ
  pub dma_addr : ℕ
  pub refcnt : ℕ

-- The pages in list order, and the (address, size) pairs given back by `free_frames_bytes`.
pub record Pages : Type 0 where
  pub live : List Page
  pub freed : List (ℕ × ℕ)

-- The results of the two allocations, 0 for NULL.
pub record Grant : Type 0 where
  pub page : ℕ
  pub frames : ℕ

abbrev pub page_size : ℕ
page_size = 4096

abbrev pub page_shift : ℕ
page_shift = 12

-- `sizeof(struct page)`
abbrev pub sizeof_page : ℕ
sizeof_page = 56

unfoldable pub find_page : ℕ → List Page → Option Page
find_page p [] = none
find_page p (pg ∷ pgs) = if pg.ptr == p then some pg else find_page p pgs

-- A write through a page's address.
unfoldable pub update_page : ℕ → (Page → Page) → List Page → List Page
update_page p f [] = []
update_page p f (pg ∷ pgs) = if pg.ptr == p then f pg ∷ pgs else pg ∷ update_page p f pgs

-- `list_del_init` of the page with that address.
unfoldable pub delete_page : ℕ → List Page → List Page
delete_page p [] = []
delete_page p (pg ∷ pgs) = if pg.ptr == p then pgs else pg ∷ delete_page p pgs

unfoldable pub new_page : Grant → ℕ → ℕ → Page
new_page g pool size = record {
  ptr = g.page;
  addr = g.frames;
  size = size;
  pp = pool;
  dma_addr = g.frames;
  refcnt = 1;
}

-- `lcompat_page_alloc`
unfoldable pub page_alloc : Grant → (pool size : ℕ) → Pages → ℕ × Pages
unfolding new_page
page_alloc g pool size k =
    let size' = if size == 0 then page_size else size in
    if ltb (ulong_max - sizeof_page) size'
    then (0, k)
    else if g.page == 0
    then (0, k)
    else (g.page, record k { live = k.live ++ (new_page g pool size' ∷ []) })

-- `lcompat_page_free` of a page that is on the list
unfoldable pub page_free : Page → Pages → Pages
unfolding delete_page
page_free pg k = record { live = delete_page pg.ptr k.live; freed = (pg.addr, pg.size) ∷ k.freed }

-- `virt_to_head_page`: the first page whose range holds the address, 0 for NULL
unfoldable pub find_addr : ℕ → List Page → ℕ
find_addr target [] = 0
find_addr target (pg ∷ pgs) =
    if leb pg.addr target && ltb target (add_u64 pg.addr pg.size)
    then pg.ptr
    else find_addr target pgs

unfoldable pub virt_to_head_page : ℕ → Pages → ℕ
unfolding find_addr
virt_to_head_page addr k = if addr == 0 then 0 else find_addr addr k.live

-- `page_address`; `none` is a read of a page that is not live.
unfoldable pub page_address : ℕ → Pages → Option ℕ
unfolding find_page
page_address p k =
    if p == 0 then some 0 else elim (find_page p k.live) [ none ↦ none | some pg ↦ some pg.addr ]

-- `get_page`
unfoldable pub get_page : ℕ → Pages → Option Pages
unfolding find_page update_page
get_page p k = if p == 0 then some k else elim (find_page p k.live) [
  | none ↦ none
  | some pg ↦
      some
        (record k { live = update_page p (λ q. record q { refcnt = add_u32 pg.refcnt 1 }) k.live })
]

-- `put_page`
unfoldable pub put_page : ℕ → Pages → Option Pages
unfolding find_page update_page page_free
put_page p k = if p == 0 then some k else elim (find_page p k.live) [
  | none ↦ none
  | some pg ↦ some (
      if sub_u32 pg.refcnt 1 == 0 then page_free pg k else record k {
        live = update_page p (λ q. record q { refcnt = sub_u32 pg.refcnt 1 }) k.live;
      })
]

-- `__dev_alloc_pages`; `size <<= order` drops the bits above 64.
unfoldable pub dev_alloc_pages : Grant → (order : ℕ) → Pages → ℕ × Pages
unfolding page_alloc
dev_alloc_pages g order k =
    if leb 64 order then (0, k) else page_alloc g 0 ((page_size * 2 ^ order) % u64_mod) k

-- The loop of `get_order`: `while (pages) { pages >>= 1; order++; }`, with fuel.
unfoldable pub order_loop : ℕ → (pages order : ℕ) → ℕ
order_loop zero pages order = order
order_loop (suc fuel) pages order = elim (pages == 0) [
  | true ↦ order
  | false ↦ order_loop fuel (pages / 2) (order + 1)
]

-- An `unsigned long` loses its last bit in at most 64 rounds.
unfoldable pub get_order : ℕ → ℕ
unfolding order_loop
get_order size = if leb size page_size then 0 else order_loop 64 ((size - 1) / 2 ^ page_shift) 0

-- `struct page_pool`: its parameters are only stored, and of its counters these three are counted.
pub record Pool : Type 0 where
  pub ptr : ℕ
  pub alloc_slow : ℕ
  pub alloc_empty : ℕ
  pub release_slow : ℕ

-- The loop of `page_pool_destroy`: pages outlive their pool, and forget it.
unfoldable pub disown : ℕ → Page → Page
disown pool pg = if pg.pp == pool then record pg { pp = 0 } else pg

unfoldable pub page_pool_destroy : ℕ → Pages → Pages
unfolding disown
page_pool_destroy pool k = if pool == 0 then k else record k { live = map (disown pool) k.live }

-- The pool's address, 0 for NULL.
abbrev pub pool_ptr : Option Pool → ℕ
pool_ptr none = 0
pool_ptr (some pool) = pool.ptr

abbrev pub count_alloc : Bool → Pool → Pool
count_alloc true pool = record pool { alloc_slow = add_u64 pool.alloc_slow 1 }
count_alloc false pool = record pool { alloc_empty = add_u64 pool.alloc_empty 1 }

abbrev pub map_pool : (Pool → Pool) → Option Pool → Option Pool
map_pool f none = none
map_pool f (some pool) = some (f pool)

-- `page_pool_alloc_frag`; the written `*offset` is the second part, unwritten on failure.
unfoldable pub page_pool_alloc_frag :
    Grant → Option Pool → ℕ → Pages → ℕ × Option ℕ × Option Pool × Pages
unfolding page_alloc
page_pool_alloc_frag g pool size k =
    let (p, k') = page_alloc g (pool_ptr pool) (if size == 0 then page_size else size) k in
    if p == 0
    then (0, none, map_pool (count_alloc false) pool, k')
    else (p, some 0, map_pool (count_alloc true) pool, k')

-- `page_pool_put_full_page`
unfoldable pub page_pool_put_full_page : Option Pool → ℕ → Pages → Option (Option Pool × Pages)
unfolding put_page
page_pool_put_full_page pool p k = elim (put_page p k) [
  | none ↦ none
  | some k' ↦ some (map_pool (λ q. record q { release_slow = add_u64 q.release_slow 1 }) pool, k')
]
