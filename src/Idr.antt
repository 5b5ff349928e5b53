-- ===== src/Idr.antt =====
-- include/linux/idr.h: a table from small integers to pointers. The slots are a list of pointers, 0 for
-- NULL; `krealloc` is an argument, whether it succeeds. `none` is a fault, a slot out of the table.
pub mod Laws
use lcompat.Base.Words.{int_max}
use lcompat.Base.{
  ℕ, zero, suc, ◌+◌, ◌-◌, ◌||◌, ◌&&◌, not, Bool, true, false, Option, none, some, List, [], ◌∷◌,
  ◌++◌, ltb, leb, ◌==◌, if◌then◌else◌, length, get_or, set, replicate, Ret, ok, err, Errno, einval,
  enomem, enospc, ℤ, pos, negsuc,
}

-- `struct idr`: `size` is the length of the list; `slots` is NULL exactly when nothing was allocated,
-- and the table then has no slot.
pub record Idr : Type 0 where
  pub slots : List ℕ

-- `idr_init`; `idr_destroy` leaves the same table.
unfoldable pub idr_init : Option Idr → Option Idr
idr_init none = none
idr_init (some idr) = some (record { slots = [] })

unfoldable pub idr_destroy : Option Idr → Option Idr
idr_destroy none = none
idr_destroy (some idr) = some (record { slots = [] })

-- The loop of `idr_is_empty`.
unfoldable pub all_null : List ℕ → Bool
all_null [] = true
all_null (p ∷ ps) = p == 0 && all_null ps

unfoldable pub idr_is_empty : Option Idr → Bool
unfolding all_null
idr_is_empty none = true
idr_is_empty (some idr) = all_null idr.slots

-- The loop `for (i = start; i < limit; i++)` of `idr_alloc`, over the `n` rounds left: the first free
-- index, if there is one.
unfoldable pub find_free : (n i : ℕ) → List ℕ → Option ℕ
find_free zero i slots = none
find_free (suc n) i slots =
    let rest = find_free n (i + 1) slots in if get_or slots i 0 == 0 then some i else rest

-- `start + 1`. For the start INT_MAX the sum wraps to a negative int: 0 stands for it, which is as little
-- above an index or a size.
abbrev pub after_start : ℕ → ℕ
after_start start = if ltb start int_max then start + 1 else 0

-- `end > start ? end : start + 1`, for a start that is not negative
abbrev pub limit_of : ℕ → ℤ → ℕ
limit_of start (pos end) = if ltb start end then end else after_start start
limit_of start (negsuc end) = after_start start

-- The table grown to `limit` slots.
abbrev pub grow : List ℕ → ℕ → List ℕ
grow slots limit = slots ++ replicate (limit - length slots) 0

abbrev pub place : List ℕ → (ptr : ℕ) → Option ℕ → Ret ℕ × List ℕ
place slots ptr none = (err enospc, slots)
place slots ptr (some i) = (ok i, set slots i ptr)

-- `idr_alloc`. A negative start reads before the slots, a fault, unless the table fails to grow first.
unfoldable pub idr_alloc :
    Option Idr → (ptr : ℕ) → (start end : ℤ) → (grows : Bool) → Option (Ret ℕ × Option Idr)
unfolding find_free
idr_alloc none ptr start end grows = some (err einval, none)
idr_alloc (some idr) ptr (negsuc start) (pos end) grows =
    if ltb (length idr.slots) end && not grows then some (err enomem, some idr) else none
idr_alloc (some idr) ptr (negsuc start) (negsuc end) grows = none
idr_alloc (some idr) ptr (pos start) end grows =
    let limit = limit_of start end in
    if ltb (length idr.slots) limit && not grows
    then some (err enomem, some idr)
    else (let (r, slots') =
          place (grow idr.slots limit) ptr
            (find_free (limit - start) start (grow idr.slots limit)) in
        some (r, some (record { slots = slots' })))

-- `idr_remove`: the pointer that was there, 0 for NULL
unfoldable pub idr_remove : Option Idr → ℤ → ℕ × Option Idr
idr_remove none id = (0, none)
idr_remove (some idr) (negsuc id) = (0, some idr)
idr_remove (some idr) (pos id) =
    if leb (length idr.slots) id
    then (0, some idr)
    else (get_or idr.slots id 0, some (record { slots = set idr.slots id 0 }))

-- `idr_find`
unfoldable pub idr_find : Option Idr → ℤ → ℕ
idr_find none id = 0
idr_find (some idr) (negsuc id) = 0
idr_find (some idr) (pos id) = if leb (length idr.slots) id then 0 else get_or idr.slots id 0
