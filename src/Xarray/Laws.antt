-- ===== src/Xarray/Laws.antt =====
-- Entries: what is stored is loaded, until it is erased.
use lcompat.Base.{
  ℕ, ◌^◌, ◌≤◌, ◌<◌, ◌≡◌, ◌⊎◌, inl, inr, Bool, true, false, Option, some, leb, ◌==◌, if◌then◌else◌,
  set, arith, Bool-cases, get_or-set_self, get_or-set_ne, get_or-beyond, leb→le,
}
use lcompat.Base.Words.{ulong_max}
use lcompat.Xarray.{
  Xarray, capacity, xa_ensure_capacity, xa_load, xa_store, xa_erase, put_slot, xa_mk_value,
  xa_to_value, xa_is_value,
}
use lcompat.Xarray.Growth.{Ensured, room, no_room, xa_load-get_or, xa_ensure_capacity-Ensured}

-- Writing a slot that is there changes this entry and no other.
pub xa_load-set :
    (xa : Xarray) (index entry i : ℕ)
    → index < capacity xa
    → xa_load (put_slot (some xa) index entry) i
      ≡ (if i == index then entry else xa_load (some xa) i)
xa_load-set xa index entry i h = ground (
  arith,
  xa_load-get_or xa i,
  xa_load-get_or (record xa { slots = set xa.slots index entry }) i,
  get_or-set_self xa.slots index entry 0 h,
  get_or-set_ne xa.slots index i entry 0,
)

-- The outcome of a store: the old entry and the new one in its place, or an error that changes nothing.
pub data Stored (xa : Xarray) (index entry : ℕ) (grows : Bool) : ℕ × Option Xarray → Type 0 where
  stored :
      (xa' : Xarray)
      → ((i : ℕ) → xa_load (some xa') i ≡ (if i == index then entry else xa_load (some xa) i))
      → xa'.next ≡ xa.next
      → Stored xa index entry grows (xa_load (some xa) index, some xa')
  failed : (grows ≡ false) ⊎ (2 ^ 60 ≤ index) → Stored xa index entry grows (ulong_max, some xa)

store-Ensured :
    (xa : Xarray) (index entry : ℕ) (grows : Bool) (r : Bool × Option Xarray)
    → xa_ensure_capacity (some xa) index grows ≡ some r
    → Ensured xa index grows r
    → (s : ℕ × Option Xarray) × (xa_store (some xa) index entry grows ≡ some s)
      × Stored xa index entry grows s
unfolding xa_store
store-Ensured xa index entry grows _ e (room xa' y) = (
  (xa_load (some xa) index, put_slot (some xa') index entry),
  rw (e, y.same index),
  stored (record xa' { slots = set xa'.slots index entry })
      (λ i. rw (xa_load-set xa' index entry i y.has_slot, y.same i)) y.next_kept,
)
store-Ensured xa index entry grows _ e (no_room why past) = ((ulong_max, some xa), rw e, failed why)

-- `xa_store` returns, on a table below 2 ^ 61 slots. It gives back the old entry and puts the new one
-- in its place, every other entry staying as it was; or it gives the error pointer and changes nothing,
-- which happens only without memory or at an index of 2 ^ 60 or more.
pub xa_store-Stored :
    (xa : Xarray) (index entry : ℕ) (grows : Bool)
    → capacity xa < 2 ^ 61
    → (s : ℕ × Option Xarray) × (xa_store (some xa) index entry grows ≡ some s)
      × Stored xa index entry grows s
xa_store-Stored xa index entry grows small =
    let (r, e, d) = xa_ensure_capacity-Ensured xa index grows small in
    store-Ensured xa index entry grows r e d

-- `xa_erase` returns the entry of the index, and after it a load finds nothing there and every other
-- entry as it was.
pub xa_erase_lem :
    (xa : Xarray) (index i : ℕ)
    → let (old, xa') = xa_erase (some xa) index in
      (old ≡ xa_load (some xa) index)
      × (xa_load xa' i ≡ (if i == index then 0 else xa_load (some xa) i))
unfolding xa_erase
xa_erase_lem xa index i = elim (Bool-cases (leb (capacity xa) index)) [
  | inl e ↦
      let past = get_or-beyond xa.slots index 0 (leb→le (capacity xa) index e) in
      rw e
        (ground (arith, xa_load-get_or xa index, past), ground (arith, xa_load-get_or xa i, past))
  | inr e ↦ rw e (ground (arith, xa_load-get_or xa index), xa_load-set xa index 0 i (ground arith))
]

-- An integer below 2 ^ 63 survives its trip as a pointer, which is marked as a value.
pub xa_to_value-xa_mk_value :
    (v : ℕ) → v < 2 ^ 63 → (xa_to_value (xa_mk_value v) ≡ v) × (xa_is_value (xa_mk_value v) ≡ true)
unfolding xa_to_value xa_mk_value xa_is_value
xa_to_value-xa_mk_value v h = (omega arith, ground arith)
