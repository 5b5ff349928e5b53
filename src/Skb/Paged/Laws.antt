-- ===== src/Skb/Paged/Laws.antt =====
-- Trimming, padding and freeing: the linear bytes stay in bounds, and each page goes back once.
use lcompat.Base.{
  ℕ, ◌+◌, ◌-◌, ◌≤◌, ◌<◌, ◌≡◌, some, ◌++◌, arith, ltb, leb, ◌==◌, true, false, inl, inr, Bool-cases,
  pos, ok, length, take, drop, replicate,
}
use lcompat.Base.Words.{add_u32, sub_u32}
use lcompat.Base.Memory.{Memory, memset}
use lcompat.PagePool.{Pages}
use lcompat.PagePool.Invariant.{IsValid as PagesOk}
use lcompat.Skb.Paged.Release.{refs, Holds, Dropped, release_loop-Dropped}
use lcompat.Skb.{SkBuff, no_frag, data_off, linear_len}
use lcompat.Skb.Paged.{release_loop, release_frags, trim_to, skb_trim, skb_pad}
use lcompat.Skb.Contents.{grown, Fits, put-Fits}
use lcompat.Skb.Bounds.{IsValid, bounds_ok-of-IsValid}

-- A buffer cut to `n` bytes that all are linear.
abbrev pub cut_linear : SkBuff → ℕ → SkBuff
cut_linear s n = record s {
  len = n;
  tail = data_off s + n;
  data_len = 0;
  nr_frags = 0;
  frags = replicate s.nr_frags no_frag ++ drop s.nr_frags s.frags;
}

-- A buffer cut to `n` bytes by taking paged bytes off.
abbrev pub cut_paged : SkBuff → ℕ → SkBuff
cut_paged s n = record s { len = n; data_len = s.data_len - (s.len - n) }

-- The references of the fragments in use.
abbrev pub frag_refs : SkBuff → ℕ → ℕ
frag_refs s p = refs p (take s.nr_frags s.frags)

linear_len-eq : (s : SkBuff) → IsValid s → linear_len s ≡ s.len - s.data_len
linear_len-eq s v = omega arith

data_off-eq : (s : SkBuff) → IsValid s → data_off s ≡ s.data_ptr - s.head
data_off-eq s v = omega arith

-- On a buffer with its bounds in order whose fragments' references are counted, a trim into the
-- linear bytes drops the references of all fragments, and leaves the first `n` bytes in a buffer
-- with its bounds in order.
pub skb_trim_into_linear :
    (s : SkBuff) (n : ℕ) (k : Pages)
    → IsValid s
    → n < s.len - s.data_len
    → PagesOk k
    → s.nr_frags ≤ length s.frags
    → Holds (frag_refs s) k
    → (k' : Pages) × (skb_trim (some s) n k ≡ some (some (cut_linear s n), k'))
      × Dropped (frag_refs s) k k'
      × IsValid (cut_linear s n)
unfolding skb_trim trim_to release_frags
skb_trim_into_linear s n k v l kv fl h =
    let (k', e, d) = release_loop-Dropped s.nr_frags s.frags k kv fl h in
    let e1 : leb n s.len ≡ true = ground arith in
    let e2 : ltb n (linear_len s) ≡ true = ground arith in
    let e3 : ltb (sub_u32 s.end (data_off s)) n ≡ false = ground arith in
    let e4 : add_u32 (data_off s) n ≡ data_off s + n = omega arith in
    (k', rw (bounds_ok-of-IsValid s v, e1, e2, e, e3, e4), d, ground arith)

-- A trim that keeps all linear bytes touches no page, and takes what it cuts from the paged bytes.
pub skb_trim_into_paged :
    (s : SkBuff) (n : ℕ) (k : Pages)
    → IsValid s
    → s.len - s.data_len ≤ n
    → n ≤ s.len
    → (skb_trim (some s) n k ≡ some (some (cut_paged s n), k)) × IsValid (cut_paged s n)
unfolding skb_trim trim_to
skb_trim_into_paged s n k v l h =
    let e1 : leb n s.len ≡ true = ground arith in
    let e2 : ltb n (linear_len s) ≡ false = ground arith in
    let e3 : ltb (sub_u32 s.end (data_off s)) (linear_len s) ≡ false = ground arith in
    let e4 : add_u32 (data_off s) (linear_len s) ≡ s.tail = omega arith in
    (
      rw (bounds_ok-of-IsValid s v, e1, e2)
          (elim (Bool-cases (ltb n s.len)) [
            | inl e ↦ rw (e, e3, e4) (ground arith)
            | inr e ↦ rw (e, e3, e4) (ground arith)
          ]),
      ground arith,
    )

release_frags-none :
    (s : SkBuff) (k : Pages) → s.data_len ≡ 0 → s.nr_frags ≡ 0 → release_frags s k ≡ some (s, k)
unfolding release_frags release_loop
release_frags-none s k d nf = ground arith

-- Trimming a buffer without fragments cuts its length and its tail by as much, and touches no page.
pub skb_trim_linear :
    (s : SkBuff) (n : ℕ) (k : Pages)
    → IsValid s
    → s.data_len ≡ 0
    → s.nr_frags ≡ 0
    → n ≤ s.len
    → skb_trim (some s) n k ≡ some (some (record s { len = n; tail = s.tail - (s.len - n) }), k)
unfolding skb_trim trim_to
skb_trim_linear s n k v d nf h =
    let e1 : leb n s.len ≡ true = ground arith in
    rw (bounds_ok-of-IsValid s v, e1)
      (elim (Bool-cases (ltb n (linear_len s))) [
        | inl e ↦ rw (e, release_frags-none s k d nf) (ground arith)
        | inr e ↦ rw e (ground arith)
      ])

-- Padding a buffer without fragments writes zeros behind its tail and leaves the buffer as it was.
pub skb_pad_linear :
    (s : SkBuff) (pad : ℕ) (m : Memory) (k : Pages)
    → IsValid s
    → s.data_len ≡ 0
    → s.nr_frags ≡ 0
    → Fits s pad
    → skb_pad (some s) (pos pad) m k ≡ some (ok 0, some s, memset m (s.head + s.tail) 0 pad, k)
unfolding skb_pad
skb_pad_linear s pad m k v d nf f =
    let e = put-Fits s pad v f in
    let v' : IsValid (grown s pad) = ground arith in
    let nz : (s.head + s.tail == 0) ≡ false = ground arith in
    rw (e, nz, skb_trim_linear (grown s pad) s.len k v' d nf (omega arith)) (ground arith)

-- On a buffer with its bounds in order whose padding fits behind the tail and whose fragments'
-- references are counted, a pad longer than the paged bytes gives the fragments up, and counts its
-- zeros as data in their place: the call reports success, and the buffer keeps its length with
-- nothing paged.
pub skb_pad_drops_frags :
    (s : SkBuff) (pad : ℕ) (m : Memory) (k : Pages)
    → IsValid s
    → s.data_len < pad
    → Fits s pad
    → PagesOk k
    → s.nr_frags ≤ length s.frags
    → Holds (frag_refs s) k
    → (k' : Pages) × (skb_pad (some s) (pos pad) m k
        ≡ some (ok 0, some (cut_linear (grown s pad) s.len), memset m (s.head + s.tail) 0 pad, k'))
      × Dropped (frag_refs s) k k'
unfolding skb_pad
skb_pad_drops_frags s pad m k v l f kv fl h =
    let e = put-Fits s pad v f in
    let v' : IsValid (grown s pad) = ground arith in
    let nz : (s.head + s.tail == 0) ≡ false = ground arith in
    let (k', e', d, w) = skb_trim_into_linear (grown s pad) s.len k v' (omega arith) kv fl h in
    (k', rw (e, nz, e'), d)
