-- ===== src/Idr/Laws.antt =====
-- The identifiers of an `idr`: what is allocated is found, until it is removed.
use lcompat.Base.{
  ℕ, zero, suc, ◌+◌, ◌≤◌, ◌<◌, ◌≡◌, ◌≢◌, ◌↔◌, refl, inl, inr, true, some, List, [], ◌∷◌, leb, ◌==◌,
  if◌then◌else◌, length, get_or, set, pos, arith, Bool-cases, leb→le, get_or-set_self,
  get_or-set_ne, get_or-beyond,
}
use lcompat.Idr.{Idr, idr_is_empty, all_null, idr_remove, idr_find}

-- The search finds a free index in its range, and none before it is free; or every index is taken.
record Scan (n i : ℕ) (slots : List ℕ) (r : ℕ) : Type 0 where
  from : i ≤ r
  below : r < i + n
  free : get_or slots r 0 ≡ 0
  taken : (j : ℕ) → i ≤ j → j < r → get_or slots j 0 ≢ 0

-- A look-up past the slots gives NULL, as a free slot does.
pub idr_find-get_or : (idr : Idr) (id : ℕ) → idr_find (some idr) (pos id) ≡ get_or idr.slots id 0
unfolding idr_find
idr_find-get_or idr id = ground (arith, get_or-beyond idr.slots id 0)

-- What an allocation of `ptr` in the range from `start` to `limit` leaves behind.
pub record Allocated (idr idr' : Idr) (ptr start limit i : ℕ) : Type 0 where
  pub from : start ≤ i
  pub below : i < limit
  pub was_free : idr_find (some idr) (pos i) ≡ 0
  pub least : (j : ℕ) → start ≤ j → j < i → idr_find (some idr) (pos j) ≢ 0
  pub found : idr_find (some idr') (pos i) ≡ ptr
  pub others : (j : ℕ) → j ≢ i → idr_find (some idr') (pos j) ≡ idr_find (some idr) (pos j)

-- What an allocation leaves behind that finds no identifier.
pub record Refused (idr idr' : Idr) (start limit : ℕ) : Type 0 where
  pub taken : (j : ℕ) → start ≤ j → j < limit → idr_find (some idr) (pos j) ≢ 0
  pub same : (j : ℕ) → idr_find (some idr') (pos j) ≡ idr_find (some idr) (pos j)

-- `idr_remove` returns what a look-up would have found, frees that identifier and no other.
pub idr_remove_lem :
    (idr : Idr) (id j : ℕ)
    → let (ptr, idr') = idr_remove (some idr) (pos id) in
      (ptr ≡ idr_find (some idr) (pos id))
      × (idr_find idr' (pos j) ≡ (if j == id then 0 else idr_find (some idr) (pos j)))
unfolding idr_remove
idr_remove_lem idr id j = elim (Bool-cases (leb (length idr.slots) id)) [
  | inl e ↦
      let past = get_or-beyond idr.slots id 0 (leb→le (length idr.slots) id e) in
      rw e
        (ground (arith, idr_find-get_or idr id, past), ground (arith, idr_find-get_or idr j, past))
  | inr e ↦ rw e (
    ground (arith, idr_find-get_or idr id),
    ground (
      arith,
      idr_find-get_or idr j,
      idr_find-get_or (record { slots = set idr.slots id 0 }) j,
      get_or-set_self idr.slots id 0 0,
      get_or-set_ne idr.slots id j 0 0,
    ),
  )
]

all_null-get_or : (slots : List ℕ) (j : ℕ) → all_null slots ≡ true → get_or slots j 0 ≡ 0
unfolding all_null
all_null-get_or [] j e = refl
all_null-get_or (x ∷ xs) zero e = ground arith
all_null-get_or (x ∷ xs) (suc j) e = ground (arith, all_null-get_or xs j)

get_or-all_null : (slots : List ℕ) → ((j : ℕ) → get_or slots j 0 ≡ 0) → all_null slots ≡ true
unfolding all_null
get_or-all_null [] h = refl
get_or-all_null (x ∷ xs) h = ground (arith, h 0, get_or-all_null xs (λ j. h (suc j)))

-- `idr_is_empty` says so exactly when no identifier finds a pointer.
pub idr_is_empty_iff :
    (idr : Idr) → (idr_is_empty (some idr) ≡ true) ↔ ((id : ℕ) → idr_find (some idr) (pos id) ≡ 0)
unfolding idr_is_empty
idr_is_empty_iff idr = (
  λ e id. rw (idr_find-get_or idr id) (all_null-get_or idr.slots id e),
  λ h. get_or-all_null idr.slots (λ j. rw (idr_find-get_or idr j) at (h j)),
)
