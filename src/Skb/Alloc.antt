-- ===== src/Skb/Alloc.antt =====
-- The buffers' memory: `alloc_skb`, `build_skb`, `skb_copy`, `skb_cow_head`, `skb_linearize`. `p` is the
-- address that `kzalloc` returns for a `struct sk_buff` (0 for NULL), and `g` what the page allocation
-- gets. `none` is a fault: the use of a page that is not live, or of an entry past `frags[8]`.
pub mod Fresh
pub mod Copies
use lcompat.Base.{
  ℕ, zero, suc, ◌+◌, ◌-◌, ◌||◌, not, Option, none, some, List, [], ◌∷◌, ltb, leb, ◌==◌,
  if◌then◌else◌, Ret, ok, err, einval, enomem, ◌>>=◌, ◌%◌, min,
}
use lcompat.Base.Words.{u32_mod, uint_max, add_u32, sub_u32}
use lcompat.Base.Memory.{Memory, memcpy}
use lcompat.PagePool.{
  Pages, Grant, get_order, dev_alloc_pages, page_address, put_page, virt_to_head_page,
}
use lcompat.Skb.{SkBuff, Frag, Kernel, zeroed_skb, bounds_ok, data_off, linear_len}
use lcompat.Skb.Paged.{release_frags}

-- `__dev_alloc_pages(flags, get_order(size ? size : 1))`
abbrev pub pages_for : Grant → ℕ → Pages → ℕ × Pages
pages_for g size k = dev_alloc_pages g (get_order (if size == 0 then 1 else size)) k

-- `alloc_skb`
unfoldable pub alloc_skb : (p : ℕ) → Grant → (size : ℕ) → Kernel → Option (Option SkBuff × Kernel)
alloc_skb p g size k =
    if p == 0
    then some (none, k)
    else if ltb uint_max size
    then some (none, record k { kfreed = p ∷ k.kfreed })
    else (let (pg, pages) = pages_for g size k.pages in
        if pg == 0 then some (none, record k { pages = pages; kfreed = p ∷ k.kfreed }) else (do
          head ← page_address pg pages
          some (
            some (record (zeroed_skb p) {
              head_page = pg;
              head = head;
              data_ptr = head;
              end = size % u32_mod;
            }),
            record k { pages = pages },
          )))

-- `build_skb`
unfoldable pub build_skb : (p addr frag_size : ℕ) → Pages → Option SkBuff
build_skb p addr frag_size k =
    if addr == 0 || ltb uint_max frag_size || p == 0
    then none
    else some (record (zeroed_skb p) {
      head = addr;
      data_ptr = addr;
      head_page = virt_to_head_page addr k;
      end = frag_size % u32_mod;
    })

-- `skb_copy`
unfoldable pub skb_copy : Option SkBuff → (p : ℕ) → Grant → Kernel → Option (Option SkBuff × Kernel)
unfolding alloc_skb
skb_copy none p g k = some (none, k)
skb_copy (some s) p g k = if not (bounds_ok s) then some (none, k) else do
  (t, k') ← alloc_skb p g s.end k
  elim t [
    | none ↦ some (none, k')
    | some n ↦ some (
      some (record n {
        data_ptr = n.head + data_off s;
        tail = add_u32 (data_off s) (linear_len s);
        len = linear_len s;
        priority = s.priority;
        queue_mapping = s.queue_mapping;
        cb = s.cb;
      }),
      record k' { mem = memcpy k'.mem (n.head + data_off s) s.data_ptr (linear_len s) },
    )
  ]

-- The old head's memory goes back: `put_page(skb->head_page)`, or `kfree(skb->head)`.
unfoldable pub drop_head : SkBuff → Kernel → Option Kernel
drop_head s k =
    if s.head_page == 0
    then some (record k { kfreed = s.head ∷ k.kfreed })
    else (do pages ← put_page s.head_page k.pages; some (record k { pages = pages }))

-- `skb_cow_head`
unfoldable pub skb_cow_head :
    Option SkBuff → (headroom : ℕ) → Grant → Kernel → Option (Ret ℕ × Option SkBuff × Kernel)
skb_cow_head none headroom g k = some (err einval, none, k)
skb_cow_head (some s) headroom g k =
    if not (bounds_ok s)
    then some (err einval, some s, k)
    else if leb headroom (data_off s)
    then some (ok 0, some s, k)
    else if ltb (sub_u32 uint_max (linear_len s)) headroom
        || ltb (sub_u32 uint_max (sub_u32 s.end s.tail)) (add_u32 headroom (linear_len s))
    then some (err enomem, some s, k)
    else (let new_end = add_u32 (add_u32 headroom (linear_len s)) (sub_u32 s.end s.tail) in
        let (pg, pages) = pages_for g new_end k.pages in
        if pg == 0 then some (err enomem, some s, record k { pages = pages }) else (do
          new_head ← page_address pg pages
          k' ← drop_head s (record k {
            mem = memcpy k.mem (new_head + headroom) s.data_ptr (linear_len s);
            pages = pages;
          })
          some (
            ok 0,
            some (record s {
              head = new_head;
              head_page = pg;
              data_ptr = new_head + headroom;
              tail = add_u32 headroom (linear_len s);
              end = new_end;
            }),
            k',
          )))

-- The loop of `skb_linearize` over the first `n` entries: the bytes copied so far and the memory, or
-- `none` in the first place where a fragment has no memory.
unfoldable pub copy_frags :
    (n : ℕ) → List Frag → (dst len copied : ℕ) → Pages → Memory → Option (Option ℕ × Memory)
copy_frags zero fs dst len copied k m = some (some copied, m)
copy_frags (suc n) [] dst len copied k m = if leb len copied then some (some copied, m) else none
copy_frags (suc n) (f ∷ fs) dst len copied k m =
    if leb len copied then some (some copied, m) else if f.page == 0 then some (none, m) else (do
      a ← page_address f.page k
      let size = min f.size (len - copied)
      if a == 0
          then some (none, m)
          else copy_frags n fs dst len (copied + size) k
              (memcpy m (dst + copied) (a + f.page_offset) size))

-- The end of `skb_linearize`: the buffer moves to the page `pg`, whose memory is at `head`.
unfoldable pub move_head : SkBuff → (pg head : ℕ) → Kernel → Option (Ret ℕ × Option SkBuff × Kernel)
unfolding release_frags drop_head
move_head s pg head k = do
  (s', pages) ← release_frags s k.pages
  k' ← drop_head s' (record k { pages = pages })
  some (
    ok 0,
    some (record s' {
      head_page = pg;
      head = head;
      data_ptr = head + data_off s;
      tail = add_u32 (data_off s) s.len;
      end = add_u32 (data_off s) s.len;
    }),
    k',
  )

-- `skb_linearize`
unfoldable pub skb_linearize :
    Option SkBuff → Grant → Kernel → Option (Ret ℕ × Option SkBuff × Kernel)
unfolding copy_frags move_head
skb_linearize none g k = some (err einval, none, k)
skb_linearize (some s) g k =
    if not (bounds_ok s)
    then some (err einval, some s, k)
    else if s.data_len == 0
    then some (ok 0, some s, k)
    else if ltb (sub_u32 uint_max (data_off s)) s.len
    then some (err enomem, some s, k)
    else (let (pg, pages) = pages_for g (add_u32 (data_off s) s.len) k.pages in
        if pg == 0 then some (err enomem, some s, record k { pages = pages }) else (do
          new_head ← page_address pg pages
          let dst = new_head + data_off s
          (copied, m) ←
              copy_frags s.nr_frags s.frags dst s.len (linear_len s) pages
                (memcpy k.mem dst s.data_ptr (linear_len s))
          elim copied [
            | none ↦ (do
              pages' ← put_page pg pages
              some (err einval, some s, record k { mem = m; pages = pages' }))
            | some c ↦
                if c == s.len
                then move_head s pg new_head (record k { mem = m; pages = pages })
                else (do
                  pages' ← put_page pg pages
                  some (err einval, some s, record k { mem = m; pages = pages' }))
          ]))
