-- ===== src/Xarray/Ids.antt =====
-- `xa_alloc` as a source of identifiers.
use lcompat.Base.{
  ℕ, zero, suc, ◌+◌, ◌^◌, ◌≤◌, ◌<◌, ◌≡◌, ◌≢◌, ◌⊎◌, inl, inr, ◌&&◌, not, Bool, false, Option, none,
  some, leb, ◌==◌, if◌then◌else◌, arith, Bool-cases, get_or-beyond, lt→ltb,
}
use lcompat.Xarray.{Xarray, Limit, capacity, xa_load, find_slot, first_slot, alloc_at, xa_alloc}
use lcompat.Xarray.Growth.{xa_load-get_or}

-- The search stops at a free index or above the limit, and every index before it is taken.
record Searched (idx max : ℕ) (xa : Xarray) (r : ℕ) : Type 0 where
  from : idx ≤ r
  stops : (max < r) ⊎ (xa_load (some xa) r ≡ 0)
  taken : (j : ℕ) → idx ≤ j → j < r → xa_load (some xa) j ≢ 0

find_slot-Searched :
    (fuel idx max : ℕ) (xa : Xarray)
    → capacity xa < fuel + idx
    → Searched idx max xa (find_slot fuel idx max xa)
unfolding find_slot
find_slot-Searched zero idx max xa f = record {
  from = omega arith;
  stops = inr (ground (arith, xa_load-get_or xa idx, get_or-beyond xa.slots idx 0));
  taken = λ j a b. absurd (omega arith);
}
find_slot-Searched (suc fuel) idx max xa f =
    elim (Bool-cases (leb idx max && not (xa_load (some xa) idx == 0))) [
      | inl e ↦
          let s = find_slot-Searched fuel (idx + 1) max xa (omega arith) in
          rw (e, find_slot)
            (record {
              from = omega (arith, s.from);
              stops = s.stops;
              taken = λ j a b. ground (arith, s.taken j);
            })
      | inr e ↦
          rw (e, find_slot)
            (record {
              from = omega arith;
              stops = ground arith;
              taken = λ j a b. absurd (omega arith);
            })
    ]

-- The identifier that is to be handed out: the least free one from `first_slot` on, within the limit.
pub record Next (xa : Xarray) (limit : Limit) (id : ℕ) : Type 0 where
  pub from : first_slot xa limit ≤ id
  pub below : id ≤ limit.max
  pub was_free : xa_load (some xa) id ≡ 0
  pub least : (j : ℕ) → first_slot xa limit ≤ j → j < id → xa_load (some xa) j ≢ 0

-- An identifier was handed out.
pub record Handed (xa xa' : Xarray) (entry : ℕ) (limit : Limit) (id : ℕ) : Type 0 where
  pub wanted : Next xa limit id
  pub entries : (i : ℕ) → xa_load (some xa') i ≡ (if i == id then entry else xa_load (some xa) i)
  pub next_up : xa'.next ≡ id + 1

-- The outcome of `xa_alloc`.
pub data Alloced (xa : Xarray) (entry : ℕ) (limit : Limit) (grows : Bool)
    : Option ℕ × Option Xarray → Type 0 where
  handed :
      (xa' : Xarray) (id : ℕ)
      → Handed xa xa' entry limit id
      → Alloced xa entry limit grows (some id, some xa')
  exhausted :
      ((j : ℕ) → first_slot xa limit ≤ j → j ≤ limit.max → xa_load (some xa) j ≢ 0)
      → Alloced xa entry limit grows (none, some xa)
  no_memory :
      (id : ℕ)
      → Next xa limit id
      → (grows ≡ false) ⊎ (2 ^ 60 ≤ id)
      → capacity xa ≤ id
      → Alloced xa entry limit grows (none, some xa)

alloc_at-past :
    (xa : Xarray) (entry idx max : ℕ) (grows : Bool)
    → max < idx
    → alloc_at xa entry idx max grows ≡ some (none, some xa)
unfolding alloc_at
alloc_at-past xa entry idx max grows h = rw (lt→ltb max idx h)

-- Once the next identifier is above the limit, and not below its minimum, `xa_alloc` fails and
-- changes nothing, also where identifiers of the limit have become free again: it fails for good.
pub xa_alloc_never_wraps :
    (xa : Xarray) (entry : ℕ) (limit : Limit) (grows : Bool)
    → limit.max < xa.next
    → limit.min ≤ xa.next
    → xa_alloc (some xa) entry limit grows ≡ some (none, some xa)
unfolding xa_alloc
xa_alloc_never_wraps xa entry limit grows h l =
    let s = find_slot-Searched (capacity xa + 1) (first_slot xa limit) limit.max xa (omega arith) in
    alloc_at-past xa entry (find_slot (capacity xa + 1) (first_slot xa limit) limit.max xa)
      limit.max grows (ground (arith, s.from))
