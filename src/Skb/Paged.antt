-- ===== src/Skb/Paged.antt =====
-- The fragments of a buffer: `skb_add_rx_frag`, `lcompat_skb_release_frags`, `skb_trim`, `skb_pad` and
-- `kfree_skb`. `none` is a fault: the use of a page that is not live, or of an entry past `frags[8]`.
pub mod Laws
pub mod Release
use lcompat.Base.{
  ℕ, zero, suc, ◌+◌, ◌-◌, ◌||◌, ◌&&◌, not, Option, none, some, List, [], ◌∷◌, ltb, leb, ◌==◌,
  if◌then◌else◌, set, Ret, ok, err, einval, enomem, ℤ, pos, negsuc, ◌>>=◌,
}
use lcompat.Base.Words.{add_u32, sub_u32}
use lcompat.Base.Memory.{Memory, memset}
use lcompat.PagePool.{Pages, put_page}
use lcompat.Skb.{SkBuff, Frag, no_frag, Kernel, bounds_ok, data_off, linear_len}
use lcompat.Skb.Linear.{skb_put}

-- `skb_add_rx_frag`; a negative index, offset or size changes nothing.
unfoldable pub skb_add_rx_frag : Option SkBuff → (i : ℤ) (page : ℕ) (off size : ℤ) → Option SkBuff
skb_add_rx_frag none i page off size = none
skb_add_rx_frag (some s) (pos i) page (pos off) (pos size) =
    if page == 0 || leb 8 i
    then some s
    else some (record s {
      frags = set s.frags i (record { page = page; page_offset = off; size = size });
      nr_frags = if leb s.nr_frags i then i + 1 else s.nr_frags;
      len = add_u32 s.len size;
      data_len = add_u32 s.data_len size;
    })
skb_add_rx_frag (some s) i page off size = some s

-- The loop of `lcompat_skb_release_frags` over the first `n` entries.
unfoldable pub release_loop : (n : ℕ) → List Frag → Pages → Option (List Frag × Pages)
release_loop zero fs k = some (fs, k)
release_loop (suc n) [] k = none
release_loop (suc n) (f ∷ fs) k = do
  k' ← put_page f.page k
  (fs', k'') ← release_loop n fs k'
  some (no_frag ∷ fs', k'')

-- `lcompat_skb_release_frags`
unfoldable pub release_frags : SkBuff → Pages → Option (SkBuff × Pages)
unfolding release_loop
release_frags s k = do
  (fs, k') ← release_loop s.nr_frags s.frags k
  some (record s { frags = fs; nr_frags = 0; data_len = 0 }, k')

-- The end of `skb_trim`: the new length and tail, if the linear bytes fit.
unfoldable pub trim_to : SkBuff → (linear n : ℕ) → SkBuff
trim_to s linear n =
    if ltb (sub_u32 s.end (data_off s)) linear
    then s
    else record s { len = n; tail = add_u32 (data_off s) linear }

-- `skb_trim`
unfoldable pub skb_trim : Option SkBuff → ℕ → Pages → Option (Option SkBuff × Pages)
unfolding trim_to
skb_trim none n k = some (none, k)
skb_trim (some s) n k =
    if not (bounds_ok s && leb n s.len)
    then some (some s, k)
    else if ltb n (linear_len s)
    then (do (s', k') ← release_frags s k; some (some (trim_to s' n n), k'))
    else if ltb n s.len
    then some (
      some
          (trim_to (record s { data_len = sub_u32 s.data_len (sub_u32 s.len n) }) (linear_len s) n),
      k,
    )
    else some (some (trim_to s (linear_len s) n), k)

-- `skb_pad`
unfoldable pub skb_pad :
    Option SkBuff → ℤ → Memory → Pages → Option (Ret ℕ × Option SkBuff × Memory × Pages)
skb_pad none pad m k = some (err einval, none, m, k)
skb_pad (some s) (negsuc pad) m k = some (err einval, some s, m, k)
skb_pad (some s) (pos pad) m k =
    let (s', at) = skb_put (some s) pad in
    if at == 0
    then some (err enomem, s', m, k)
    else (do (s'', k') ← skb_trim s' s.len k; some (ok 0, s'', memset m at 0 pad, k'))

-- `kfree_skb`
unfoldable pub kfree_skb : Option SkBuff → Kernel → Option Kernel
unfolding release_frags
kfree_skb none k = some k
kfree_skb (some s) k = do
  (s', pages) ← release_frags s k.pages
  if s'.head_page == 0
      then some (record k { pages = pages; kfreed = s.ptr ∷ s.head ∷ k.kfreed })
      else (do
        pages' ← put_page s'.head_page pages
        some (record k { pages = pages'; kfreed = s.ptr ∷ k.kfreed }))
