-- ===== src/Skb/Alloc/Copies.antt =====
-- `skb_copy` and `skb_cow_head` keep the linear bytes.
use lcompat.Base.{
  ℕ, ◌+◌, ◌-◌, ◌^◌, ◌<◌, ◌≡◌, ◌≢◌, refl, inl, inr, some, ◌∷◌, false, arith, ◌==◌, ltb, leb,
  Bool-cases, ok,
}
use lcompat.Base.Words.{uint_max, add_u32, sub_u32}
use lcompat.Base.Memory.{memcpy, window-memcpy}
use lcompat.PagePool.{Grant}
use lcompat.PagePool.Invariant.{IsValid as PagesOk}
use lcompat.PagePool.Refcount.{Put, refcount, put_page-Put}
use lcompat.Skb.{SkBuff, Kernel, data_off, linear_len}
use lcompat.Skb.Bounds.{IsValid, bounds_ok-of-IsValid}
use lcompat.Skb.Contents.{contents}
use lcompat.Skb.Alloc.{skb_copy, skb_cow_head, drop_head}
use lcompat.Skb.Alloc.Fresh.{
  Granted, fresh_skb, with_block, alloc_skb-Backed, pages_for-with_block, page_address-with_block,
  with_block-PagesOk,
}

-- The copy of a buffer in a new block of the same size, with the same headroom.
abbrev pub copied : SkBuff → (p : ℕ) → Grant → SkBuff
copied s p g = record (fresh_skb p g s.end) {
  data_ptr = g.frames + (s.data_ptr - s.head);
  tail = s.tail;
  len = s.len - s.data_len;
  priority = s.priority;
  queue_mapping = s.queue_mapping;
  cb = s.cb;
}

-- Where the allocators grant a block of the same size, `skb_copy` of a buffer with its bounds in order
-- makes another with the same headroom and without fragments, whose bounds are in order and whose bytes
-- are the linear bytes of the original. The page list stays well-formed.
pub contents-skb_copy :
    (s : SkBuff) (p : ℕ) (g : Grant) (k : Kernel)
    → IsValid s
    → p ≢ 0
    → PagesOk k.pages
    → Granted g s.end k.pages
    → (k' : Kernel) × (skb_copy (some s) p g k ≡ some (some (copied s p g), k'))
      × IsValid (copied s p g)
      × (contents k'.mem (copied s p g) ≡ contents k.mem s)
      × PagesOk k'.pages
unfolding skb_copy
contents-skb_copy s p g k v nz kv u =
    let (e, fv, b, pv) = alloc_skb-Backed p g s.end k nz v.end_u32 kv u in
    let lin : linear_len s ≡ s.len - s.data_len = omega arith in
    let off : data_off s ≡ s.data_ptr - s.head = omega arith in
    let all : s.len - s.data_len - 0 ≡ s.len - s.data_len = omega arith in
    let tl : add_u32 (s.data_ptr - s.head) (s.len - s.data_len) ≡ s.tail = omega arith in
    (
      record k {
        pages = with_block g s.end k.pages;
        mem = memcpy k.mem (g.frames + (s.data_ptr - s.head)) s.data_ptr (s.len - s.data_len);
      },
      rw (bounds_ok-of-IsValid s v, e, lin, off, tl),
      ground (arith, u.1),
      rw all
          (window-memcpy k.mem (g.frames + (s.data_ptr - s.head)) s.data_ptr (s.len - s.data_len)),
      pv,
    )

-- The buffer in its new block, with the headroom asked for.
abbrev pub moved : SkBuff → (headroom : ℕ) → Grant → SkBuff
moved s headroom g = record s {
  head = g.frames;
  head_page = g.page;
  data_ptr = g.frames + headroom;
  tail = headroom + (s.len - s.data_len);
  end = headroom + (s.len - s.data_len) + (s.end - s.tail);
}

drop_head-total :
    (s : SkBuff) (k : Kernel)
    → PagesOk k.pages
    → (s.head_page ≢ 0 → 0 < refcount s.head_page k.pages)
    → (k' : Kernel) × (drop_head s k ≡ some k')
      × (k'.mem ≡ k.mem)
      × PagesOk k'.pages
      × (s.head_page ≢ 0 → Put s.head_page k.pages k'.pages)
unfolding drop_head
drop_head-total s k v h = elim (Bool-cases (s.head_page == 0)) [
  | inl e ↦
      (record k { kfreed = s.head ∷ k.kfreed }, rw e, refl, v, λ nz. absurd (nz (ground arith)))
  | inr e ↦
      let (k', e', d) = put_page-Put s.head_page k.pages v (h (ground arith)) in
      (record k { pages = k' }, rw (e, e'), refl, d.valid, λ nz. d)
]

-- The size of the new block, before the code adds up its three parts.
abbrev pub new_end : SkBuff → ℕ → ℕ
new_end s headroom = headroom + (s.len - s.data_len) + (s.end - s.tail)

-- On a buffer with its bounds in order, where the headroom is short, the new size fits an `unsigned
-- int`, the allocators grant the block and the page of the old head is counted, `skb_cow_head`
-- succeeds: the buffer then has exactly the headroom asked for, the same tailroom, its bounds in
-- order and the same bytes, and one reference to the old head's page is dropped.
pub contents-skb_cow_head :
    (s : SkBuff) (headroom : ℕ) (g : Grant) (k : Kernel)
    → IsValid s
    → s.data_ptr - s.head < headroom
    → new_end s headroom < 2 ^ 32
    → PagesOk k.pages
    → Granted g (new_end s headroom) k.pages
    → (s.head_page ≢ 0 → 0 < refcount s.head_page (with_block g (new_end s headroom) k.pages))
    → (k' : Kernel) × (skb_cow_head (some s) headroom g k
        ≡ some (ok 0, some (moved s headroom g), k'))
      × IsValid (moved s headroom g)
      × (contents k'.mem (moved s headroom g) ≡ contents k.mem s)
      × PagesOk k'.pages
      × (s.head_page ≢ 0 → Put s.head_page (with_block g (new_end s headroom) k.pages) k'.pages)
unfolding skb_cow_head
contents-skb_cow_head s headroom g k v short fits kv u held =
    let lin : linear_len s ≡ s.len - s.data_len = omega arith in
    let off : leb headroom (data_off s) ≡ false = ground arith in
    let room : sub_u32 s.end s.tail ≡ s.end - s.tail = omega arith in
    let hl : add_u32 headroom (s.len - s.data_len) ≡ headroom + (s.len - s.data_len) =
      omega arith in
    let ne : add_u32 (headroom + (s.len - s.data_len)) (s.end - s.tail) ≡ new_end s headroom =
      omega arith in
    let g1 : ltb (sub_u32 uint_max (s.len - s.data_len)) headroom ≡ false = ground arith in
    let g2 : ltb (sub_u32 uint_max (s.end - s.tail)) (headroom + (s.len - s.data_len)) ≡ false =
      ground arith in
    let e2 : (g.page == 0) ≡ false = ground (arith, u.0) in
    let k1 : Kernel = record k {
      mem = memcpy k.mem (g.frames + headroom) s.data_ptr (s.len - s.data_len);
      pages = with_block g (new_end s headroom) k.pages;
    } in
    let (k', e, m, pv, dropped) =
      drop_head-total s k1 (with_block-PagesOk g (new_end s headroom) k.pages u kv) held in
    (
      k',
      rw (
        bounds_ok-of-IsValid s v,
        off,
        lin,
        room,
        hl,
        ne,
        g1,
        g2,
        pages_for-with_block g (new_end s headroom) k.pages fits u.0,
        e2,
        page_address-with_block g (new_end s headroom) k.pages u,
        e,
      ),
      ground (arith, u.1),
      rw m (window-memcpy k.mem (g.frames + headroom) s.data_ptr (s.len - s.data_len)),
      pv,
      dropped,
    )
