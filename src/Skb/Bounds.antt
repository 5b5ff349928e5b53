-- ===== src/Skb/Bounds.antt =====
-- The bounds that `lcompat_skb_valid_bounds` checks, as an invariant of the linear operations.
use lcompat.Base.{
  ℕ, ◌+◌, ◌-◌, ◌^◌, ◌≤◌, ◌<◌, ◌≡◌, ◌≢◌, ◌↔◌, true, false, some, arith, leb, if◌then◌else◌, ◌&&◌,
}
use lcompat.Base.Words.{uint_max}
use lcompat.Skb.{SkBuff, bounds_ok, valid_bounds}
use lcompat.Skb.Linear.{skb_put, skb_reserve, skb_push, skb_pull}

-- The counters are `unsigned int` values, and the buffer is no longer than one counts.
pub record InRange (s : SkBuff) : Type 0 where
  pub len_u32 : s.len < 2 ^ 32
  pub tail_u32 : s.tail < 2 ^ 32
  pub end_u32 : s.end < 2 ^ 32
  pub data_len_u32 : s.data_len < 2 ^ 32
  pub off_u32 : s.data_ptr - s.head < 2 ^ 32

-- A buffer as the operations keep it: the linear bytes are those from `data` to `tail`.
pub record IsValid (s : SkBuff) : Type 0 where
  pub head_set : s.head ≢ 0
  pub end_u32 : s.end < 2 ^ 32
  pub len_u32 : s.len < 2 ^ 32
  pub paged : s.data_len ≤ s.len
  pub data_in : s.head ≤ s.data_ptr
  pub linear : s.data_ptr + (s.len - s.data_len) ≡ s.head + s.tail
  pub tail_in : s.tail ≤ s.end

-- With counters in the range of an `unsigned int`, the check accepts exactly the buffers that have
-- memory, whose paged bytes are part of all bytes, and whose linear bytes lie between `data` and
-- `tail` and so inside the memory.
pub valid_bounds_iff :
    (s : SkBuff)
    → InRange s
    → (valid_bounds (some s) ≡ true) ↔ (
        (s.head ≢ 0)
        × (s.head ≤ s.data_ptr)
        × (s.data_len ≤ s.len)
        × (s.data_ptr + (s.len - s.data_len) ≤ s.head + s.tail)
        × (s.tail ≤ s.end))
unfolding valid_bounds bounds_ok
valid_bounds_iff s r = (λ h. ground arith, λ h. ground arith)

pub bounds_ok-of-IsValid : (s : SkBuff) → IsValid s → bounds_ok s ≡ true
unfolding bounds_ok
bounds_ok-of-IsValid s v = ground arith

-- With its bounds in order, `skb_put` grows the buffer at the tail exactly when the bytes fit in front
-- of `end` and the length still fits an `unsigned int`, and returns where they start; else it returns
-- NULL and changes nothing. Nothing wraps.
pub skb_put_lem :
    (s : SkBuff) (n : ℕ)
    → IsValid s
    → skb_put (some s) n ≡ (
        if leb (s.tail + n) s.end && leb (s.len + n) uint_max
        then (some (record s { tail = s.tail + n; len = s.len + n }), s.head + s.tail)
        else (some s, 0))
unfolding skb_put
skb_put_lem s n v = rw (bounds_ok-of-IsValid s v) (ground arith)

-- `skb_push` grows the buffer at the front exactly when there is headroom and the length still fits,
-- and returns the new start; else it returns NULL and changes nothing.
pub skb_push_lem :
    (s : SkBuff) (n : ℕ)
    → IsValid s
    → skb_push (some s) n ≡ (
        if leb (s.head + n) s.data_ptr && leb (s.len + n) uint_max
        then (some (record s { data_ptr = s.data_ptr - n; len = s.len + n }), s.data_ptr - n)
        else (some s, 0))
unfolding skb_push
skb_push_lem s n v = rw (bounds_ok-of-IsValid s v) (ground arith)

pub skb_pull_lem :
    (s : SkBuff) (n : ℕ)
    → IsValid s
    → skb_pull (some s) n ≡ (
        if leb n s.len
        then (some (record s { data_ptr = s.data_ptr + n; len = s.len - n }), s.data_ptr + n)
        else (some s, 0))
unfolding skb_pull
skb_pull_lem s n v = ground (arith, bounds_ok-of-IsValid s v)

pub skb_reserve_lem :
    (s : SkBuff) (n : ℕ)
    → IsValid s
    → skb_reserve (some s) n ≡ (
        if leb (s.tail + n) s.end
        then some (record s { data_ptr = s.data_ptr + n; tail = s.tail + n })
        else some s)
unfolding skb_reserve
skb_reserve_lem s n v = ground (arith, bounds_ok-of-IsValid s v)

-- What a pull takes from the front, the push of the same size brings back: the buffer is as before,
-- and the push returns the old start of the data, for at most the linear bytes.
pub push-pull :
    (s : SkBuff) (n : ℕ)
    → IsValid s
    → n ≤ s.len - s.data_len
    → skb_push (skb_pull (some s) n).0 n ≡ (some s, s.data_ptr)
push-pull s n v h =
    let e = skb_pull_lem s n v in
    let s' : SkBuff = record s { data_ptr = s.data_ptr + n; len = s.len - n } in
    let v' : IsValid s' = ground arith in ground (arith, e, skb_push_lem s' n v')

-- A pull may pass the end of the linear bytes, since only the whole length is checked. Every pull of
-- more than the linear bytes leaves a buffer whose bounds no operation accepts any more.
pub pull-overruns :
    (s : SkBuff) (n : ℕ)
    → IsValid s
    → s.len - s.data_len < n
    → n ≤ s.len
    → valid_bounds (skb_pull (some s) n).0 ≡ false
unfolding valid_bounds bounds_ok
pull-overruns s n v h l = ground (arith, skb_pull_lem s n v)
