-- ===== src/Xarray.antt =====
-- include/linux/xarray.h: a growing table from indices to pointers, which also hands indices out. The
-- slots are a list of pointers, 0 for NULL, so `capacity` is its length. Whether `krealloc` succeeds is
-- the argument `grows`. In a result, the outer `none` is a loop without its fuel.
pub mod Growth
pub mod Laws
pub mod Ids
use lcompat.Base.{
  ℕ, zero, suc, ◌+◌, ◌-◌, ◌*◌, ◌/◌, ◌%◌, ◌^◌, ◌||◌, ◌&&◌, not, Bool, true, false, Option, none,
  some, List, [], ◌++◌, ltb, leb, ◌==◌, if◌then◌else◌, length, get_or, set, replicate, ◌>>=◌,
}
use lcompat.Base.Words.{u64_mod, ulong_max}

-- `struct xarray`
pub record Xarray : Type 0 where
  pub slots : List ℕ
  pub next : ℕ

abbrev pub capacity : Xarray → ℕ
capacity xa = length xa.slots

-- `xa_init_flags`, and `xa_destroy`, which leaves the same table
unfoldable pub xa_init_flags : Option Xarray → Option Xarray
xa_init_flags none = none
xa_init_flags (some xa) = some (record { slots = []; next = 0 })

unfoldable pub xa_destroy : Option Xarray → Option Xarray
xa_destroy none = none
xa_destroy (some xa) = some (record { slots = []; next = 0 })

-- The loop of `xa_ensure_capacity`: the new capacity, or `some none` where it would overflow.
unfoldable pub double_loop : (fuel new_capacity index : ℕ) → Option (Option ℕ)
double_loop zero new_capacity index = none
double_loop (suc fuel) new_capacity index =
    let rest = double_loop fuel (new_capacity * 2) index in
    if ltb index new_capacity
    then some (some new_capacity)
    else if ltb (ulong_max / 2) new_capacity
    then some none
    else rest

-- Whether there is room, and the table with its new slots. Every round doubles a positive 64-bit number.
unfoldable pub xa_ensure_capacity :
    Option Xarray → (index : ℕ) → (grows : Bool) → Option (Bool × Option Xarray)
xa_ensure_capacity none index grows = some (false, none)
xa_ensure_capacity (some xa) index grows =
    if ltb index (capacity xa) then some (true, some xa) else (do
      wanted ← double_loop 64 (if capacity xa == 0 then 16 else capacity xa) index
      elim wanted [
        | none ↦ some (false, some xa)
        | some new_capacity ↦
            if ltb (ulong_max / 8) new_capacity || not grows
            then some (false, some xa)
            else some (
              true,
              some (record xa { slots = xa.slots ++ replicate (new_capacity - capacity xa) 0 }),
            )
      ])

-- `xa_load`
unfoldable pub xa_load : Option Xarray → ℕ → ℕ
xa_load none index = 0
xa_load (some xa) index = if leb (capacity xa) index then 0 else get_or xa.slots index 0

abbrev pub put_slot : Option Xarray → (index entry : ℕ) → Option Xarray
put_slot none index entry = none
put_slot (some xa) index entry = some (record xa { slots = set xa.slots index entry })

-- `xa_store` and `__xa_store`: the old entry, or the error pointer `(void *)-1`
unfoldable pub xa_store :
    Option Xarray → (index entry : ℕ) → (grows : Bool) → Option (ℕ × Option Xarray)
xa_store xa index entry grows = do
  (fits, xa') ← xa_ensure_capacity xa index grows
  if fits then some (xa_load xa' index, put_slot xa' index entry) else some (ulong_max, xa')

-- `xa_erase`, `__xa_erase` and `xa_erase_irq`
unfoldable pub xa_erase : Option Xarray → ℕ → ℕ × Option Xarray
xa_erase none index = (0, none)
xa_erase (some xa) index =
    if leb (capacity xa) index
    then (0, some xa)
    else (get_or xa.slots index 0, put_slot (some xa) index 0)

-- `xa_is_err` of a pointer
unfoldable pub xa_is_err : ℕ → Bool
xa_is_err entry = entry == ulong_max

-- `struct xa_limit`
pub record Limit : Type 0 where
  pub min : ℕ
  pub max : ℕ

-- The loop of `xa_alloc`, `while (idx <= limit.max && xa_load(xa, idx) != NULL) idx++`.
unfoldable pub find_slot : (fuel idx max : ℕ) → Xarray → ℕ
find_slot zero idx max xa = idx
find_slot (suc fuel) idx max xa = elim (leb idx max && not (xa_load (some xa) idx == 0)) [
  | true ↦ find_slot fuel (idx + 1) max xa
  | false ↦ idx
]

-- Where `xa_alloc` starts to look.
abbrev pub first_slot : Xarray → Limit → ℕ
first_slot xa limit = if ltb xa.next limit.min then limit.min else xa.next

-- `xa_alloc` after its loop has stopped at `idx`: the index handed out, or `none` for -1.
unfoldable pub alloc_at :
    Xarray → (entry idx max : ℕ) → (grows : Bool) → Option (Option ℕ × Option Xarray)
alloc_at xa entry idx max grows = if ltb max idx then some (none, some xa) else (do
  (fits, xa') ← xa_ensure_capacity (some xa) idx grows
  if not fits then some (none, xa') else (elim xa' [
    | none ↦ some (none, none)
    | some t ↦ some (some idx, some (record t { slots = set t.slots idx entry; next = idx + 1 }))
  ]))

-- `xa_alloc`, with a place for the index. The search stops at the end of the slots.
unfoldable pub xa_alloc :
    Option Xarray → (entry : ℕ) → Limit → (grows : Bool) → Option (Option ℕ × Option Xarray)
xa_alloc none entry limit grows = some (none, none)
xa_alloc (some xa) entry limit grows =
    alloc_at xa entry (find_slot (capacity xa + 1) (first_slot xa limit) limit.max xa) limit.max
      grows

-- `xa_mk_value`, `xa_to_value` and `xa_is_value`: integers in place of pointers
unfoldable pub xa_mk_value : ℕ → ℕ
xa_mk_value v = (v * 2) % u64_mod + 1

unfoldable pub xa_to_value : ℕ → ℕ
xa_to_value v = v / 2

unfoldable pub xa_is_value : ℕ → Bool
xa_is_value v = not (v % 2 == 0)
