-- ===== src/Skb/Linear.antt =====
-- The operations on the linear part of a buffer: `skb_put`, `skb_push`, `skb_pull`, `skb_reserve`,
-- `skb_put_zero`, `skb_put_data`, `skb_reset_tail_pointer`. A returned pointer is an address, 0 for NULL.
use lcompat.Base.{ℕ, ◌+◌, ◌-◌, ◌||◌, not, Option, none, some, ltb, ◌==◌, if◌then◌else◌}
use lcompat.Base.Words.{uint_max, add_u32, sub_u32}
use lcompat.Base.Memory.{Memory, memcpy, memset}
use lcompat.Skb.{SkBuff, bounds_ok, data_off}

-- `skb_put`
unfoldable pub skb_put : Option SkBuff → ℕ → Option SkBuff × ℕ
skb_put none n = (none, 0)
skb_put (some s) n =
    if not (bounds_ok s) || ltb (sub_u32 s.end s.tail) n || ltb (sub_u32 uint_max s.len) n
    then (some s, 0)
    else (some (record s { tail = add_u32 s.tail n; len = add_u32 s.len n }), s.head + s.tail)

-- `skb_reserve`
unfoldable pub skb_reserve : Option SkBuff → ℕ → Option SkBuff
skb_reserve none n = none
skb_reserve (some s) n =
    if not (bounds_ok s) || ltb (sub_u32 s.end s.tail) n
    then some s
    else some (record s { data_ptr = s.data_ptr + n; tail = add_u32 s.tail n })

-- `skb_push`
unfoldable pub skb_push : Option SkBuff → ℕ → Option SkBuff × ℕ
skb_push none n = (none, 0)
skb_push (some s) n =
    if not (bounds_ok s) || ltb (data_off s) n || ltb (sub_u32 uint_max s.len) n
    then (some s, 0)
    else (some (record s { data_ptr = s.data_ptr - n; len = add_u32 s.len n }), s.data_ptr - n)

-- `skb_pull`
unfoldable pub skb_pull : Option SkBuff → ℕ → Option SkBuff × ℕ
skb_pull none n = (none, 0)
skb_pull (some s) n =
    if not (bounds_ok s) || ltb s.len n
    then (some s, 0)
    else (some (record s { data_ptr = s.data_ptr + n; len = sub_u32 s.len n }), s.data_ptr + n)

-- `skb_put_zero`
unfoldable pub skb_put_zero : Option SkBuff → ℕ → Memory → Option SkBuff × ℕ × Memory
unfolding skb_put
skb_put_zero s n m =
    let (s', pos) = skb_put s n in (s', pos, if pos == 0 then m else memset m pos 0 n)

-- `skb_put_data`; `src` is 0 for NULL.
unfoldable pub skb_put_data : Option SkBuff → (src n : ℕ) → Memory → Option SkBuff × ℕ × Memory
unfolding skb_put
skb_put_data s src n m =
    let (s', pos) = skb_put s n in (s', pos, if pos == 0 || src == 0 then m else memcpy m pos src n)

-- `skb_reset_tail_pointer`
unfoldable pub skb_reset_tail_pointer : Option SkBuff → Option SkBuff
skb_reset_tail_pointer none = none
skb_reset_tail_pointer (some s) =
    if s.head == 0 || ltb s.data_ptr s.head
    then some s
    else if ltb s.end (data_off s)
    then some s
    else some (record s { len = 0; tail = data_off s })
