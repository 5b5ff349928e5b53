-- ===== src/Skb.antt =====
-- include/linux/skbuff.h: socket buffers. A `struct sk_buff *` is an `Option SkBuff`, `none` for NULL;
-- an operation that writes through the pointer returns the new buffer. Byte pointers are addresses.
pub mod Linear
pub mod Paged
pub mod Alloc
pub mod Bounds
pub mod Contents
pub mod History
pub mod Queue
use lcompat.Base.{
  ℕ, ◌-◌, ◌%◌, Bool, true, false, ◌||◌, not, Option, none, some, List, [], ◌∷◌, ltb, leb, ◌==◌,
  if◌then◌else◌, replicate,
}
use lcompat.Base.Words.{u32_mod, sub_u32}
use lcompat.Base.Memory.{Memory}
use lcompat.PagePool.{Pages}

-- One entry of `skb_shared_info.frags`; `page` is the address of the `struct page`.
pub record Frag : Type 0 where
  pub page : ℕ
  pub page_offset : ℕ
  pub size : ℕ

abbrev pub no_frag : Frag
no_frag = record { page = 0; page_offset = 0; size = 0 }

-- `struct sk_buff` without the links of the queues. `ptr` is its own address, `data_ptr` the field
-- `data`; `nr_frags` and `frags` are those of `shinfo`.
pub record SkBuff : Type 0 where
  pub ptr : ℕ
  pub head : ℕ
  pub data_ptr : ℕ
  pub head_page : ℕ
  pub len : ℕ
  pub tail : ℕ
  pub end : ℕ
  pub priority : ℕ
  pub data_len : ℕ
  pub queue_mapping : ℕ
  pub ip_summed : ℕ
  pub protocol : ℕ
  pub cb : List ℕ
  pub nr_frags : ℕ
  pub frags : List Frag

-- Memory, the page list, and the pointers given to `kfree`.
pub record Kernel : Type 0 where
  pub mem : Memory
  pub pages : Pages
  pub kfreed : List ℕ

-- What `kzalloc(sizeof(struct sk_buff))` yields, at the address `p`.
abbrev pub zeroed_skb : ℕ → SkBuff
zeroed_skb p = record {
  ptr = p;
  head = 0;
  data_ptr = 0;
  head_page = 0;
  len = 0;
  tail = 0;
  end = 0;
  priority = 0;
  data_len = 0;
  queue_mapping = 0;
  ip_summed = 0;
  protocol = 0;
  cb = replicate 128 0;
  nr_frags = 0;
  frags = replicate 8 no_frag;
}

-- `(unsigned int)(skb->data - skb->head)`, where `head ≤ data`
abbrev pub data_off : SkBuff → ℕ
data_off s = (s.data_ptr - s.head) % u32_mod

-- `skb->len - skb->data_len`
abbrev pub linear_len : SkBuff → ℕ
linear_len s = sub_u32 s.len s.data_len

-- `lcompat_skb_valid_bounds` of a buffer that is there
unfoldable pub bounds_ok : SkBuff → Bool
bounds_ok s =
    if s.head == 0 || ltb s.data_ptr s.head
    then false
    else if ltb s.len s.data_len
    then false
    else if ltb s.end (data_off s) || ltb s.end s.tail
    then false
    else if ltb (sub_u32 s.end (data_off s)) (linear_len s)
    then false
    else not (ltb s.tail (data_off s) || ltb (sub_u32 s.tail (data_off s)) (linear_len s))

unfoldable pub valid_bounds : Option SkBuff → Bool
unfolding bounds_ok
valid_bounds none = false
valid_bounds (some s) = bounds_ok s

-- `skb_headlen`
unfoldable pub skb_headlen : Option SkBuff → ℕ
skb_headlen none = 0
skb_headlen (some s) = if leb s.data_len s.len then s.len - s.data_len else 0
