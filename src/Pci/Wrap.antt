-- ===== src/Pci/Wrap.antt =====
-- Each device has one wrapper.
use lcompat.Base.{
  ℕ, zero, suc, ◌+◌, ◌≡◌, ◌≢◌, ◌⊎◌, refl, ap, sym, ◌∙◌, true, false, ◌&&◌, Option, none, some, List,
  [], ◌∷◌, arith, ◌==◌, if◌then◌else◌, get_elem?, Bool-cases, Option-cases, inl, inr,
}
use mathlib.Core.Option.{none-ne-some}
use lcompat.Pci.{Native, Wrapper, find_used, filled, fill_free, wrap}

-- The free entry at the index `k` was filled for the device, which is found at `i0 + k` then; every other
-- entry, and what is found for other devices, is as it was.
record Filled (i0 k : ℕ) (ws ws' : List Wrapper) (n : Native) : Type 0 where
  pub found : find_used i0 ws' n.ptr ≡ some (i0 + k)
  pub others : (ptr : ℕ) → ptr ≢ n.ptr → find_used i0 ws' ptr ≡ find_used i0 ws ptr
  pub entry : get_elem? ws' k ≡ some (filled n)
  pub was_free : (w : Wrapper) × (get_elem? ws k ≡ some w) × (w.used ≡ false)
  pub kept : (j : ℕ) → j ≢ k → get_elem? ws' j ≡ get_elem? ws j

-- Every entry is used, and for another device.
abbrev pub IsFull : List Wrapper → (ptr : ℕ) → Type 0
IsFull ws ptr =
    (j : ℕ) (w : Wrapper) → get_elem? ws j ≡ some w → (w.used ≡ true) × (w.native.ptr ≢ ptr)

-- The table has a free entry, or it has none.
FillOutcome : ℕ → List Wrapper → Native → Type 0
FillOutcome i0 ws n =
    ((fill_free i0 ws n ≡ none) × IsFull ws n.ptr)
    ⊎ ((k : ℕ) × (ws' : List Wrapper) × (fill_free i0 ws n ≡ some (i0 + k, ws'))
        × Filled i0 k ws ws' n)

absent-rest :
    (i0 : ℕ) (w : Wrapper) (ws : List Wrapper) (ptr : ℕ)
    → find_used i0 (w ∷ ws) ptr ≡ none
    → ((w.used && w.native.ptr == ptr) ≡ false) × (find_used (i0 + 1) ws ptr ≡ none)
unfolding find_used
absent-rest i0 w ws ptr e = elim (Bool-cases (w.used && w.native.ptr == ptr)) [
  | inl h ↦ absurd (none-ne-some i0 (sym e ∙ rw h refl))
  | inr h ↦ (h, rw h at e)
]

fill_here :
    (i0 : ℕ) (w : Wrapper) (ws : List Wrapper) (n : Native)
    → w.used ≡ false
    → FillOutcome i0 (w ∷ ws) n
unfolding FillOutcome fill_free find_used filled
fill_here i0 w ws n u =
    let z : i0 + 0 ≡ i0 = omega arith in
    inr (
      0,
      filled n ∷ ws,
      rw (z, u) refl,
      record {
        found = ground arith;
        others = λ ptr ne. ground arith;
        entry = refl;
        was_free = (w, refl, u);
        kept = λ j ne. kept_behind j ne;
      },
    )
  where
    kept_behind : (j : ℕ) → j ≢ 0 → get_elem? (filled n ∷ ws) j ≡ get_elem? (w ∷ ws) j
    kept_behind zero ne = absurd (ne refl)
    kept_behind (suc j) ne = refl

fill_free-used :
    (i0 i : ℕ) (w : Wrapper) (ws ws' : List Wrapper) (n : Native)
    → w.used ≡ true
    → fill_free (i0 + 1) ws n ≡ some (i, ws')
    → fill_free i0 (w ∷ ws) n ≡ some (i, w ∷ ws')
unfolding fill_free
fill_free-used i0 i w ws ws' n u e = ground (arith, u, e)

IsFull-later :
    (w : Wrapper) (ws : List Wrapper) (ptr : ℕ)
    → w.used ≡ true
    → (w.used && w.native.ptr == ptr) ≡ false
    → IsFull ws ptr
    → IsFull (w ∷ ws) ptr
IsFull-later w ws ptr u miss f zero v e =
    let same : w ≡ v = cc in rw (← same) (u, λ h. absurd (ground (arith, u, miss, h)))
IsFull-later w ws ptr u miss f (suc j) v e = f j v e

Filled-later :
    (i0 k : ℕ) (w : Wrapper) (ws ws' : List Wrapper) (n : Native)
    → (w.used && w.native.ptr == n.ptr) ≡ false
    → Filled (i0 + 1) k ws ws' n
    → Filled i0 (suc k) (w ∷ ws) (w ∷ ws') n
unfolding find_used
Filled-later i0 k w ws ws' n miss f = record {
  found = let z : i0 + 1 + k ≡ i0 + suc k = omega arith in rw (miss, ← z) f.found;
  others = λ ptr ne.
      ap (λ (r : Option ℕ). if w.used && w.native.ptr == ptr then some i0 else r) (f.others ptr ne);
  entry = f.entry;
  was_free = f.was_free;
  kept = kept_all;
}
  where
    kept_all : (j : ℕ) → j ≢ suc k → get_elem? (w ∷ ws') j ≡ get_elem? (w ∷ ws) j
    kept_all zero ne = refl
    kept_all (suc j) ne = f.kept j (λ e. ne (ap (λ (i : ℕ). suc i) e))

fill_later :
    (i0 : ℕ) (w : Wrapper) (ws : List Wrapper) (n : Native)
    → w.used ≡ true
    → (w.used && w.native.ptr == n.ptr) ≡ false
    → FillOutcome (i0 + 1) ws n
    → FillOutcome i0 (w ∷ ws) n
unfolding FillOutcome fill_free
fill_later i0 w ws n u miss (inl (e, f)) = inl (rw (u, e) refl, IsFull-later w ws n.ptr u miss f)
fill_later i0 w ws n u miss (inr (k, ws', e, f)) =
    let z : i0 + 1 + k ≡ i0 + suc k = omega arith in
    inr (
      suc k,
      w ∷ ws',
      rw (← z) (fill_free-used i0 (i0 + 1 + k) w ws ws' n u e),
      Filled-later i0 k w ws ws' n miss f,
    )

fill_free-FillOutcome :
    (i0 : ℕ) (ws : List Wrapper) (n : Native) → find_used i0 ws n.ptr ≡ none → FillOutcome i0 ws n
unfolding fill_free FillOutcome
fill_free-FillOutcome i0 [] n absent = inl (refl, λ j w e. absurd (none-ne-some w e))
fill_free-FillOutcome i0 (w ∷ ws) n absent =
    let (miss, absent') = absent-rest i0 w ws n.ptr absent in
    elim (Bool-cases w.used) [
      | inl u ↦ fill_later i0 w ws n u miss (fill_free-FillOutcome (i0 + 1) ws n absent')
      | inr u ↦ fill_here i0 w ws n u
    ]

-- The entry that is found is used, and for the device.
found-entry :
    (i0 i : ℕ) (ws : List Wrapper) (ptr : ℕ)
    → find_used i0 ws ptr ≡ some i
    → (k : ℕ) × (i ≡ i0 + k)
      × (w : Wrapper) × (get_elem? ws k ≡ some w)
      × (w.used ≡ true)
      × (w.native.ptr ≡ ptr)
unfolding find_used
found-entry i0 i [] ptr e = absurd (none-ne-some i e)
found-entry i0 i (w ∷ ws) ptr e = elim (Bool-cases (w.used && w.native.ptr == ptr)) [
  | inl h ↦
      let k = rw h at e in
      let same : i0 ≡ i = cc in
      (0, omega (arith, same), w, refl, ground (arith, h), ground (arith, h))
  | inr h ↦
      let (k, s, w', g, u, p) = found-entry (i0 + 1) i ws ptr (rw h at e) in
      (suc k, omega (arith, s), w', g, u, p)
]

-- The table behind the call: the entry `i` is used for the device, the next call finds it and changes
-- nothing, every other entry is as it was, and so is what is found for other devices. The entry `i` is as it
-- was, too, or it was free and is filled.
pub record Wrapped (i : ℕ) (ws ws' : List Wrapper) (n : Native) : Type 0 where
  pub entry : (w : Wrapper) × (get_elem? ws' i ≡ some w) × (w.used ≡ true) × (w.native.ptr ≡ n.ptr)
  pub again : wrap ws' (some n) ≡ some (i, ws')
  pub kept : (j : ℕ) → j ≢ i → get_elem? ws' j ≡ get_elem? ws j
  pub others : (ptr : ℕ) → ptr ≢ n.ptr → find_used 0 ws' ptr ≡ find_used 0 ws ptr
  pub change :
      (ws' ≡ ws)
      ⊎ ((get_elem? ws' i ≡ some (filled n))
          × (w : Wrapper) × (get_elem? ws i ≡ some w)
          × (w.used ≡ false))

wrap-again :
    (i : ℕ) (ws : List Wrapper) (n : Native)
    → find_used 0 ws n.ptr ≡ some i
    → wrap ws (some n) ≡ some (i, ws)
unfolding wrap
wrap-again i ws n e = rw (wrap, e) refl

found-Wrapped :
    (i : ℕ) (ws : List Wrapper) (n : Native) → find_used 0 ws n.ptr ≡ some i → Wrapped i ws ws n
found-Wrapped i ws n e =
    let (k, s, w, g, u, p) = found-entry 0 i ws n.ptr e in
    let s' : k ≡ i = omega (arith, s) in
    record {
      entry = rw (← s') (w, g, u, p);
      again = wrap-again i ws n e;
      kept = λ j ne. refl;
      others = λ ptr ne. refl;
      change = inl refl;
    }

Filled-Wrapped :
    (i : ℕ) (ws ws' : List Wrapper) (n : Native) → Filled 0 i ws ws' n → Wrapped i ws ws' n
unfolding filled
Filled-Wrapped i ws ws' n f =
    let z : 0 + i ≡ i = omega arith in
    let (w, g, u) = f.was_free in
    let found : find_used 0 ws' n.ptr ≡ some i = rw z at f.found in
    record {
      entry = (filled n, f.entry, refl, refl);
      again = wrap-again i ws' n found;
      kept = f.kept;
      others = f.others;
      change = inr (f.entry, w, g, u);
    }

-- `lcompat_pci_wrap` gives a device its one entry: one that is used for it already, or else a free one
-- that it fills. Every later call returns the same entry and changes nothing. Every other entry stays as it
-- is. It returns NULL only where every entry is used for another device.
pub wrap-Wrapped :
    (ws : List Wrapper) (n : Native)
    → ((wrap ws (some n) ≡ none) × IsFull ws n.ptr)
      ⊎ ((i : ℕ) × (ws' : List Wrapper) × (wrap ws (some n) ≡ some (i, ws')) × Wrapped i ws ws' n)
unfolding wrap FillOutcome
wrap-Wrapped ws n = elim (Option-cases (find_used 0 ws n.ptr)) [
  | inl e ↦ elim (fill_free-FillOutcome 0 ws n e) [
    | inl (f, full) ↦ inl (rw (wrap, e, f) refl, full)
    | inr (i, ws', eq, r) ↦
        let z : 0 + i ≡ i = omega arith in
        inr (i, ws', rw (wrap, e, eq, z) refl, Filled-Wrapped i ws ws' n r)
  ]
  | inr (i, e) ↦ inr (i, ws, wrap-again i ws n e, found-Wrapped i ws n e)
]
