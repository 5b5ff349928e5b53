-- ===== src/Samples.antt =====
-- Small concrete states that the tests of several modules run on: two live pages, a buffer with one
-- fragment, a buffer without, and queues of three and of two buffers.
pub mod Stations
pub mod Transfers
use lcompat.Base.{refl, [], ◌∷◌, replicate, arith, ◌==◌, if◌then◌else◌}
use lcompat.Chain.{Links, ends}
use lcompat.PagePool.{Page, Pages, Grant}
use lcompat.PagePool.Invariant.{IsValid as PagesOk, IsUnused}
use lcompat.Skb.{SkBuff, no_frag, Kernel}
use lcompat.Skb.Bounds.{IsValid}
use lcompat.Skb.Queue.{SkBuffHead}
use lcompat.Skb.Queue.Laws.{Queued}

-- Held twice, for a pool.
abbrev pub page_a : Page
page_a = record { ptr = 1000; addr = 8192; size = 4096; pp = 77; dma_addr = 8192; refcnt = 2 }

-- Held once.
abbrev pub page_b : Page
page_b = record { ptr = 2000; addr = 16384; size = 8192; pp = 0; dma_addr = 16384; refcnt = 1 }

abbrev pub two_pages : Pages
two_pages = record { live = page_a ∷ page_b ∷ []; freed = [] }

pub two_pages-PagesOk : PagesOk two_pages
two_pages-PagesOk = omega arith

abbrev pub grant : Grant
grant = record { page = 3000; frames = 65536 }

pub grant-IsUnused : IsUnused grant 4096 two_pages
grant-IsUnused = omega arith

-- 64 bytes of headroom, 80 linear bytes, 56 bytes of tailroom.
abbrev pub plain : SkBuff
plain = record {
  ptr = 500;
  head = 16384;
  data_ptr = 16448;
  head_page = 2000;
  len = 80;
  tail = 144;
  end = 200;
  priority = 0;
  data_len = 0;
  queue_mapping = 0;
  ip_summed = 0;
  protocol = 0;
  cb = replicate 128 0;
  nr_frags = 0;
  frags = replicate 8 no_frag;
}

-- The same with 20 more bytes in a fragment.
abbrev pub paged : SkBuff
paged = record plain {
  len = 100;
  data_len = 20;
  nr_frags = 1;
  frags = record { page = 1000; page_offset = 0; size = 20 } ∷ replicate 7 no_frag;
}

pub plain-IsValid : IsValid plain
plain-IsValid = omega arith

pub paged-IsValid : IsValid paged
paged-IsValid = omega arith

abbrev pub kernel : Kernel
kernel = record { mem = λ a. a; pages = two_pages; kfreed = [] }

-- 10 leads to 20 and 20 to 30; 40 leads to 50.
abbrev pub links : Links
links p = if p == 10 then 20 else if p == 20 then 30 else if p == 40 then 50 else 0

abbrev pub three : SkBuffHead
three = record { list = ends 10 30; qlen = 3 }

abbrev pub pair : SkBuffHead
pair = record { list = ends 40 50; qlen = 2 }

pub three-Queued : Queued links three (10 ∷ 20 ∷ 30 ∷ [])
three-Queued = record {
  queue = record { chain = ground arith; end = refl };
  count = refl;
  fits = omega arith;
}

pub pair-Queued : Queued links pair (40 ∷ 50 ∷ [])
pair-Queued = record {
  queue = record { chain = ground arith; end = refl };
  count = refl;
  fits = omega arith;
}
