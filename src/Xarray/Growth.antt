-- ===== src/Xarray/Growth.antt =====
-- `xa_ensure_capacity`: the loop ends, and makes room without touching the entries.
use native.Mathlib.Nat.{pow-suc}
use lcompat.Base.{
  ℕ, zero, suc, ◌-◌, ◌*◌, ◌/◌, ◌^◌, ◌≤◌, ◌<◌, ◌≡◌, ◌⊎◌, refl, inl, inr, ◌||◌, not, Bool, true,
  false, Option, none, some, List, ◌++◌, ltb, ◌==◌, if◌then◌else◌, length, get_or, replicate, arith,
  Bool-cases, length-append, length-replicate, get_or-append_replicate, get_or-beyond, ap, le→ltb,
  ltb→le,
}
use lcompat.Base.Words.{ulong_max}
use lcompat.Xarray.{Xarray, capacity, double_loop, xa_ensure_capacity, xa_load}

-- The end of the doubling loop: a capacity above the index, or an index that no capacity is above.
abbrev pub Doubled : (cap index : ℕ) → Option ℕ → Type 0
Doubled cap index none = 2 ^ 63 ≤ index
Doubled cap index (some c) = (index < c) × (cap ≤ c) × ((c ≤ cap) ⊎ (c ≤ 2 * index))

double_loop-Doubled :
    (fuel n index : ℕ)
    → 0 < n
    → 2 ^ 64 ≤ 2 ^ fuel * n
    → n < 2 ^ 64
    → (r : Option ℕ) × (double_loop fuel n index ≡ some r) × Doubled n index r
unfolding double_loop
double_loop-Doubled zero n index p f l = absurd (omega arith)
double_loop-Doubled (suc fuel) n index p f l = elim (Bool-cases (ltb index n)) [
  | inl e ↦ (some n, rw e, ground arith)
  | inr e ↦ elim (Bool-cases (ltb (ulong_max / 2) n)) [
    | inl e' ↦ (none, rw (e, e'), ground arith)
    | inr e' ↦
        let (r, eq, d) =
          double_loop-Doubled fuel (n * 2) index (omega arith)
            (omega (arith, ap (λ (t : ℕ). t * n) (pow-suc 2 fuel))) (ground arith) in
        (r, rw (e, e', eq), weaken r (ground arith) d)
  ]
]
  where
    weaken : (r : Option ℕ) → n ≤ index → Doubled (n * 2) index r → Doubled n index r
    weaken none le d = d
    weaken (some c) le d = omega arith

pub xa_load-get_or : (xa : Xarray) (index : ℕ) → xa_load (some xa) index ≡ get_or xa.slots index 0
unfolding xa_load
xa_load-get_or xa index = ground (arith, get_or-beyond xa.slots index 0)

-- Room was made: the index has a slot, and every entry is where it was.
pub record Roomy (xa xa' : Xarray) (index : ℕ) : Type 0 where
  pub has_slot : index < capacity xa'
  pub same : (i : ℕ) → xa_load (some xa') i ≡ xa_load (some xa) i
  pub next_kept : xa'.next ≡ xa.next

-- The outcome of `xa_ensure_capacity`: it fails for a reason and changes nothing, or makes room.
pub data Ensured (xa : Xarray) (index : ℕ) (grows : Bool) : Bool × Option Xarray → Type 0 where
  room : (xa' : Xarray) → Roomy xa xa' index → Ensured xa index grows (true, some xa')
  no_room :
      (grows ≡ false) ⊎ (2 ^ 60 ≤ index)
      → capacity xa ≤ index
      → Ensured xa index grows (false, some xa)

capacity-grown :
    (xs : List ℕ) (c : ℕ) → length xs ≤ c → length (xs ++ replicate (c - length xs) 0) ≡ c
capacity-grown xs c h = omega (
  arith,
  length-append xs (replicate (c - length xs) 0),
  length-replicate {A = ℕ} (c - length xs) 0,
)

-- Where the doubling starts.
abbrev first_capacity : Xarray → ℕ
first_capacity xa = if capacity xa == 0 then 16 else capacity xa

grow-Ensured :
    (xa : Xarray) (index : ℕ) (grows : Bool) (w : Option ℕ)
    → capacity xa < 2 ^ 61
    → capacity xa ≤ index
    → double_loop 64 (first_capacity xa) index ≡ some w
    → Doubled (first_capacity xa) index w
    → (r : Bool × Option Xarray) × (xa_ensure_capacity (some xa) index grows ≡ some r)
      × Ensured xa index grows r
unfolding xa_ensure_capacity
grow-Ensured xa index grows none small past e d =
    let t = le→ltb index (capacity xa) past in
    ((false, some xa), rw (t, e), no_room (inr (omega arith)) past)
grow-Ensured xa index grows (some c) small past e d =
    let t = le→ltb index (capacity xa) past in
    elim (Bool-cases (ltb (ulong_max / 8) c || not grows)) [
      | inl h ↦ ((false, some xa), rw (t, e, h), no_room (ground arith) past)
      | inr h ↦
          let xa' : Xarray = record xa { slots = xa.slots ++ replicate (c - capacity xa) 0 } in
          (
            (true, some xa'),
            rw (t, e, h),
            room xa' (record {
              has_slot = rw (capacity-grown xa.slots c (ground arith)) d.0;
              same = λ i.
                  rw (xa_load-get_or xa' i, xa_load-get_or xa i)
                    (get_or-append_replicate xa.slots (c - capacity xa) i 0);
              next_kept = refl;
            }),
          )
    ]

-- `xa_ensure_capacity` returns, on a table below 2 ^ 61 slots. It makes room for any index below 2 ^ 60
-- where memory can be had, and every entry stays; where it fails, nothing changes.
pub xa_ensure_capacity-Ensured :
    (xa : Xarray) (index : ℕ) (grows : Bool)
    → capacity xa < 2 ^ 61
    → (r : Bool × Option Xarray) × (xa_ensure_capacity (some xa) index grows ≡ some r)
      × Ensured xa index grows r
unfolding xa_ensure_capacity
xa_ensure_capacity-Ensured xa index grows small = elim (Bool-cases (ltb index (capacity xa))) [
  | inl e ↦ (
    (true, some xa),
    rw e,
    room xa (record { has_slot = ground arith; same = λ i. refl; next_kept = refl }),
  )
  | inr e ↦
      let (w, eq, d) =
        double_loop-Doubled 64 (first_capacity xa) index (ground arith) (ground arith)
          (ground arith) in
      grow-Ensured xa index grows w small (ltb→le index (capacity xa) e) eq d
]
