-- ===== src/Skb/Alloc/Fresh.antt =====
-- A new buffer has the memory that it says it has.
use lcompat.Base.{
  ℕ, ◌*◌, ◌%◌, ◌^◌, ◌≤◌, ◌<◌, ◌≡◌, ◌≢◌, refl, inl, inr, some, [], ◌∷◌, ◌++◌, true, false, arith,
  ◌==◌, ltb, if◌then◌else◌, Bool-cases, ◌∙◌,
}
use lcompat.Base.Words.{u32_mod, uint_max}
use lcompat.PagePool.{Page, Pages, Grant, page_size, get_order, find_page, page_address, new_page}
use lcompat.PagePool.Order.{get_order_least, get_order-lt}
use lcompat.PagePool.Invariant.{IsUnused}
use lcompat.PagePool.Invariant.{IsValid as PagesOk, AllOk-snoc}
use lcompat.PagePool.Lists.{find_snoc}
use lcompat.PagePool.Blocks.{dev_alloc_pages_block}
use lcompat.Skb.{SkBuff, Kernel, zeroed_skb}
use lcompat.Skb.Bounds.{IsValid}
use lcompat.Skb.Alloc.{alloc_skb, pages_for}

-- The block that holds `size` bytes, one byte at least.
abbrev pub block_for : ℕ → ℕ
block_for size = page_size * 2 ^ get_order (if size == 0 then 1 else size)

-- The page that `pages_for` adds to the list.
abbrev pub block_page : Grant → ℕ → Page
block_page g size = new_page g 0 (block_for size)

-- The page list with a new block for `size` bytes.
abbrev pub with_block : Grant → ℕ → Pages → Pages
with_block g size k = record k { live = k.live ++ (block_page g size ∷ []) }

pub block_for-le : (size : ℕ) → size < 2 ^ 32 → size ≤ block_for size
block_for-le size h = elim (Bool-cases (size == 0)) [
  | inl e ↦ ground arith
  | inr e ↦ rw e (get_order_least size (omega arith)).0
]

pub pages_for-with_block :
    (g : Grant) (size : ℕ) (k : Pages)
    → size < 2 ^ 32
    → g.page ≢ 0
    → pages_for g size k ≡ (g.page, with_block g size k)
pages_for-with_block g size k h nz =
    let o = get_order-lt (if size == 0 then 1 else size) (ground arith) in
    let e : ltb (get_order (if size == 0 then 1 else size)) 52 ≡ true = ground arith in
    dev_alloc_pages_block g (get_order (if size == 0 then 1 else size)) k (omega arith) nz ∙ rw e

-- What the allocators must give for a block: an unused page structure, and unused memory of its size.
abbrev pub Granted : Grant → ℕ → Pages → Type 0
Granted g size k = (g.page ≢ 0) × (g.frames ≢ 0) × IsUnused g (block_for size) k

pub find-with_block :
    (g : Grant) (size : ℕ) (k : Pages)
    → Granted g size k
    → find_page g.page (with_block g size k).live ≡ some (block_page g size)
unfolding new_page
find-with_block g size k u = find_snoc (block_page g size) k.live u.2.page

pub page_address-with_block :
    (g : Grant) (size : ℕ) (k : Pages)
    → Granted g size k
    → page_address g.page (with_block g size k) ≡ some g.frames
unfolding page_address new_page
page_address-with_block g size k u = ground (arith, u.0, find-with_block g size k u)

pub with_block-PagesOk :
    (g : Grant) (size : ℕ) (k : Pages)
    → Granted g size k
    → PagesOk k
    → PagesOk (with_block g size k)
unfolding new_page
with_block-PagesOk g size k u v = record {
  pages =
      AllOk-snoc k.live (block_page g size) v.pages (u.0, omega arith, omega arith, u.2.fits)
        u.2.page u.2.frames;
}

-- The head of a buffer is the memory of a live page, which reaches as far as `end` says.
pub record Backed (s : SkBuff) (k : Pages) : Type 0 where
  pub page : Page
  pub found : find_page s.head_page k.live ≡ some page
  pub at_head : page.addr ≡ s.head
  pub room : s.end ≤ page.size

abbrev pub fresh_skb : (p : ℕ) → Grant → ℕ → SkBuff
fresh_skb p g size = record (zeroed_skb p) {
  head_page = g.page;
  head = g.frames;
  data_ptr = g.frames;
  end = size;
}

-- Where the allocators grant what is asked for, `alloc_skb` returns an empty buffer with its bounds in
-- order, whose `end` is the size asked for and lies inside the memory of its page, for every size that
-- fits an `unsigned int`.
pub alloc_skb-Backed :
    (p : ℕ) (g : Grant) (size : ℕ) (k : Kernel)
    → p ≢ 0
    → size < 2 ^ 32
    → PagesOk k.pages
    → Granted g size k.pages
    → (alloc_skb p g size k
        ≡ some (some (fresh_skb p g size), record k { pages = with_block g size k.pages }))
      × IsValid (fresh_skb p g size)
      × Backed (fresh_skb p g size) (with_block g size k.pages)
      × PagesOk (with_block g size k.pages)
unfolding alloc_skb new_page
alloc_skb-Backed p g size k nz h v u =
    let e0 : (p == 0) ≡ false = ground arith in
    let e1 : ltb uint_max size ≡ false = ground arith in
    let e2 : (g.page == 0) ≡ false = ground (arith, u.0) in
    let e3 : size % u32_mod ≡ size = omega arith in
    (
      rw (
        e0,
        e1,
        pages_for-with_block g size k.pages h u.0,
        e2,
        page_address-with_block g size k.pages u,
        e3,
      ),
      ground (arith, u.1),
      record {
        page = block_page g size;
        found = find-with_block g size k.pages u;
        at_head = refl;
        room = block_for-le size h;
      },
      with_block-PagesOk g size k.pages u v,
    )
