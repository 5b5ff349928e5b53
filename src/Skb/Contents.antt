-- ===== src/Skb/Contents.antt =====
-- A buffer as a sequence of bytes: what the operations do to the bytes from `data` to `tail`.
use lcompat.Base.{
  ℕ, ◌+◌, ◌-◌, ◌^◌, ◌≤◌, ◌<◌, ◌≡◌, ◌≢◌, refl, some, List, ◌++◌, arith, ◌==◌, ◌||◌, replicate, drop,
  false, ◌∙◌, ap,
}
use lcompat.Base.Memory.{
  Memory, memcpy, memset, window, window-append, window-memset, window-memcpy, window-memcpy_before,
  window-memset_before, drop-window,
}
use lcompat.Skb.{SkBuff}
use lcompat.Skb.Linear.{skb_put, skb_push, skb_pull, skb_put_zero, skb_put_data}
use lcompat.Skb.Bounds.{IsValid, skb_put_lem, skb_push_lem, skb_pull_lem}

-- The linear bytes of a buffer.
abbrev pub contents : Memory → SkBuff → List ℕ
contents m s = window m s.data_ptr (s.len - s.data_len)

-- The buffer with `n` more bytes at its tail.
abbrev pub grown : SkBuff → ℕ → SkBuff
grown s n = record s { tail = s.tail + n; len = s.len + n }

-- The bytes fit behind the tail, and the length in an `unsigned int`.
abbrev pub Fits : SkBuff → ℕ → Type 0
Fits s n = (s.tail + n ≤ s.end) × (s.len + n < 2 ^ 32)

pub put-Fits :
    (s : SkBuff) (n : ℕ)
    → IsValid s
    → Fits s n
    → skb_put (some s) n ≡ (some (grown s n), s.head + s.tail)
put-Fits s n v f = ground (arith, skb_put_lem s n v)

contents-grown :
    (m : Memory) (s : SkBuff) (n : ℕ)
    → IsValid s
    → contents m (grown s n)
      ≡ window m s.data_ptr (s.len - s.data_len) ++ window m (s.head + s.tail) n
contents-grown m s n v =
    let e : s.data_ptr + (s.len - s.data_len) ≡ s.head + s.tail = v.linear in
    window-append m s.data_ptr (s.len - s.data_len) n (s.len + n - s.data_len) (omega arith)
    ∙ ap (λ (a : ℕ). window m s.data_ptr (s.len - s.data_len) ++ window m a n) e

-- On a buffer with its bounds in order where the bytes fit, `skb_put_data` of a source that is not
-- NULL appends the bytes at `src` to the contents.
pub contents-put_data :
    (m : Memory) (s : SkBuff) (src n : ℕ)
    → IsValid s
    → Fits s n
    → src ≢ 0
    → let (s', pos, m') = skb_put_data (some s) src n m in
      (s' ≡ some (grown s n)) × (contents m' (grown s n) ≡ contents m s ++ window m src n)
unfolding skb_put_data
contents-put_data m s src n v f nz =
    let e = put-Fits s n v f in
    let t : (s.head + s.tail == 0 || src == 0) ≡ false = ground (arith, v) in
    rw (e, t)
      (
        refl,
        rw (
          contents-grown (memcpy m (s.head + s.tail) src n) s n v,
          window-memcpy m (s.head + s.tail) src n,
          window-memcpy_before m (s.head + s.tail) src n s.data_ptr (s.len - s.data_len)
              (omega (arith, v.linear)),
        ),
      )

-- Where the bytes fit, `skb_put_zero` appends that many zeros to the contents.
pub contents-put_zero :
    (m : Memory) (s : SkBuff) (n : ℕ)
    → IsValid s
    → Fits s n
    → let (s', pos, m') = skb_put_zero (some s) n m in
      (s' ≡ some (grown s n)) × (contents m' (grown s n) ≡ contents m s ++ replicate n 0)
unfolding skb_put_zero
contents-put_zero m s n v f =
    let e = put-Fits s n v f in
    let t : (s.head + s.tail == 0) ≡ false = ground (arith, v) in
    rw (e, t)
      (
        refl,
        rw (
          contents-grown (memset m (s.head + s.tail) 0 n) s n v,
          window-memset m (s.head + s.tail) 0 n,
          window-memset_before m (s.head + s.tail) 0 n s.data_ptr (s.len - s.data_len)
              (omega (arith, v.linear)),
        ),
      )

-- On a buffer with its bounds in order, a pull of linear bytes drops them from the front of the
-- contents.
pub contents-pull :
    (m : Memory) (s : SkBuff) (n : ℕ)
    → IsValid s
    → n ≤ s.len - s.data_len
    → let s' : SkBuff = record s { data_ptr = s.data_ptr + n; len = s.len - n } in
      (skb_pull (some s) n ≡ (some s', s.data_ptr + n)) × (contents m s' ≡ drop n (contents m s))
contents-pull m s n v h = (
  ground (arith, skb_pull_lem s n v),
  rw (drop-window m s.data_ptr n (s.len - s.data_len) h)
      (ap (λ (k : ℕ). window m (s.data_ptr + n) k) (omega arith)),
)

-- On a buffer with its bounds in order, a push into the headroom, with a length that fits an
-- `unsigned int`, puts `n` bytes of the headroom in front of the contents.
pub contents-push :
    (m : Memory) (s : SkBuff) (n : ℕ)
    → IsValid s
    → s.head + n ≤ s.data_ptr
    → s.len + n < 2 ^ 32
    → let s' : SkBuff = record s { data_ptr = s.data_ptr - n; len = s.len + n } in
      (skb_push (some s) n ≡ (some s', s.data_ptr - n))
      × (contents m s' ≡ window m (s.data_ptr - n) n ++ contents m s)
contents-push m s n v h l = (
  ground (arith, skb_push_lem s n v),
  window-append m (s.data_ptr - n) n (s.len - s.data_len) (s.len + n - s.data_len)
        (omega (arith, v.paged))
      ∙ ap (λ (a : ℕ). window m (s.data_ptr - n) n ++ window m a (s.len - s.data_len))
          (omega arith),
)
