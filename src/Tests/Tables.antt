-- ===== src/Tests/Tables.antt =====
-- Tables: include/linux/idr.h and include/linux/xarray.h with a few entries.
use lcompat.Base.{ℕ, ◌≡◌, refl, Option, some, [], ◌∷◌, arith, true, pos, ok}
use lcompat.Idr.{Idr, find_free, idr_alloc}
use lcompat.Xarray.{Xarray, Limit, xa_store, xa_mk_value, xa_to_value, xa_is_value}
use lcompat.Xarray.Laws.{Stored, xa_store-Stored, xa_to_value-xa_mk_value}

-- 0 and 2 are taken, 1 is free.
abbrev table : Idr
table = record { slots = 700 ∷ 0 ∷ 701 ∷ [] }

abbrev array : Xarray
array = record { slots = 700 ∷ 0 ∷ 701 ∷ []; next = 3 }

abbrev first_three : Limit
first_three = record { min = 0; max = 2 }

-- The least free identifier comes first.
idr_alloc-gap :
    idr_alloc (some table) 702 (pos 0) (pos 3) true
    ≡ some (ok 1, some (record { slots = 700 ∷ 702 ∷ 701 ∷ [] }))
unfolding idr_alloc find_free
idr_alloc-gap = refl

xa_store-Stored_example :
    (s : ℕ × Option Xarray) × (xa_store (some array) 1 702 true ≡ some s)
    × Stored array 1 702 true s
xa_store-Stored_example = xa_store-Stored array 1 702 true (omega arith)

xa_to_value-xa_mk_value_example :
    (xa_to_value (xa_mk_value 7) ≡ 7) × (xa_is_value (xa_mk_value 7) ≡ true)
xa_to_value-xa_mk_value_example = xa_to_value-xa_mk_value 7 (omega arith)
