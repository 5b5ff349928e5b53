-- ===== src/Usb/Descriptors/Agree.antt =====
-- The endpoints that a wrapper collects are those that a search of its interface finds.
use lcompat.Base.{
  ℕ, zero, suc, ◌+◌, ◌≤◌, ◌<◌, ◌≡◌, ◌≢◌, ◌⊎◌, refl, sym, ap, ◌∙◌, true, false, ◌&&◌, ◌||◌, Option,
  none, some, List, [], ◌∷◌, arith, length, take, drop, get_or, get_elem?, ltb, leb, ◌==◌,
  Bool-cases, inl, inr, length-drop,
}
use mathlib.Core.List.{append-nil}
use lcompat.Usb.Descriptors.{
  Layout, max_endpoints, descriptor_size, collect_loop, collect_endpoints, fits_pipe, find_ep_loop,
  find_ep_in_iface, ep_index_loop, find_wrapper_ep_index,
}
use lcompat.Usb.Descriptors.Bounds.{added}
use lcompat.Usb.Descriptors.Rounds.{
  first_fit, descriptor_of, Agree, round-collect, Agree-other, Agree-miss, Agree-hit,
}

stop_short :
    (h : Layout) (fuel pipe : ℕ) (bytes : List ℕ) (ds : List (List ℕ))
    → ltb (length bytes) 2 ≡ true
    → Agree h (suc fuel) pipe bytes ds
unfolding collect_loop find_ep_loop first_fit
stop_short h fuel pipe bytes ds e = record {
  new = [];
  found = none;
  companion = none;
  collected = rw (e, append-nil) refl;
  searched = rw e refl;
  same = refl;
}

stop_here :
    (h : Layout) (fuel pipe : ℕ) (bytes : List ℕ) (ds : List (List ℕ))
    → (ltb (length bytes) 2 || leb max_endpoints (length ds)) ≡ false
    → (ltb (get_or bytes 0 0) 2 || get_or bytes 1 0 == h.dt_interface) ≡ true
    → Agree h (suc fuel) pipe bytes ds
unfolding collect_loop find_ep_loop first_fit
stop_here h fuel pipe bytes ds long e =
    let l : ltb (length bytes) 2 ≡ false = ground (arith, long) in
    record {
      new = [];
      found = none;
      companion = none;
      collected = rw (long, e, append-nil) refl;
      searched = rw (l, e) refl;
      same = refl;
    }

full :
    (h : Layout) (fuel : ℕ) (bytes : List ℕ) (ds all : List (List ℕ))
    → leb max_endpoints (length ds) ≡ true
    → collect_loop h (suc fuel) bytes ds ≡ some all
    → max_endpoints ≤ length all
unfolding collect_loop
full h fuel bytes ds all e k =
    let t : (ltb (length bytes) 2 || leb max_endpoints (length ds)) ≡ true = ground (arith, e) in
    let same : ds ≡ all = let k' = rw t at k in cc in
    let l : max_endpoints ≤ length ds = ground (arith, e) in rw (← same) l

walk-Agree :
    (h : Layout) (fuel pipe : ℕ) (bytes : List ℕ) (ds all : List (List ℕ))
    → h.endpoint_size ≡ descriptor_size
    → length bytes < fuel
    → collect_loop h fuel bytes ds ≡ some all
    → length all < max_endpoints
    → Agree h fuel pipe bytes ds
walk-Agree h zero pipe bytes ds all size f k short = absurd (omega arith)
walk-Agree h (suc zero) pipe bytes ds all size f k short =
    stop_short h 0 pipe bytes ds (ground arith)
walk-Agree h (suc (suc fuel)) pipe bytes ds all size f k short =
    elim (Bool-cases (ltb (length bytes) 2)) [
      | inl e ↦ stop_short h (suc fuel) pipe bytes ds e
      | inr e ↦ elim (Bool-cases (leb max_endpoints (length ds))) [
        | inl r ↦ absurd (omega (arith, full h (suc fuel) bytes ds all r k))
        | inr r ↦
            let long : (ltb (length bytes) 2 || leb max_endpoints (length ds)) ≡ false =
              rw (e, r) refl in
            elim (Bool-cases (ltb (get_or bytes 0 0) 2 || get_or bytes 1 0 == h.dt_interface)) [
              | inl g ↦ stop_here h (suc fuel) pipe bytes ds long g
              | inr g ↦
                  let ih =
                    walk-Agree h (suc fuel) pipe (drop (get_or bytes 0 0) bytes) (added h bytes ds)
                      all size (ground (arith, length-drop (get_or bytes 0 0) bytes))
                      (sym (round-collect h (suc fuel) pipe bytes ds size long g) ∙ k) short in
                  elim (Bool-cases
                    (get_or bytes 1 0 == h.dt_endpoint && leb descriptor_size (length bytes))) [
                      | inr c ↦ Agree-other h (suc fuel) pipe bytes ds size long g c ih
                      | inl c ↦ elim (Bool-cases (fits_pipe pipe bytes)) [
                        | inr m ↦ Agree-miss h (suc fuel) pipe bytes ds size long g c m ih
                        | inl m ↦ Agree-hit h fuel pipe bytes ds size long g c m ih
                      ]
                    ]
            ]
      ]
    ]

-- The index of the first fitting descriptor, counted from `i`.
pub index-first_fit :
    (i pipe : ℕ) (ds : List (List ℕ))
    → ((ep_index_loop i pipe ds ≡ none) × (first_fit pipe ds ≡ none))
      ⊎ ((j : ℕ) × (ep_index_loop i pipe ds ≡ some (i + j))
          × (get_elem? ds j ≡ first_fit pipe ds)
          × (first_fit pipe ds ≢ none))
unfolding ep_index_loop first_fit
index-first_fit i pipe [] = inl (refl, refl)
index-first_fit i pipe (d ∷ ds) = elim (Bool-cases (fits_pipe pipe d)) [
  | inl e ↦
      inr (
        0,
        (let z : i + 0 ≡ i = omega arith in rw (e, z) refl),
        rw e refl,
        rw e (λ h. ground arith),
      )
  | inr e ↦ elim (index-first_fit (i + 1) pipe ds) [
    | inl (a, b) ↦ inl (rw e a, rw e b)
    | inr (j, a, b, c) ↦
        let s : i + 1 + j ≡ i + suc j = omega arith in inr (suc j, rw (e, ← s) a, rw e b, rw e c)
  ]
]

-- While a wrapper has room for all endpoints of its interface, the endpoint that it knows for a pipe is the
-- one that a search of the interface finds: both find none, or the search finds the descriptor that stands at
-- the wrapper's index. The host's endpoint descriptor has the size of the copied one.
pub find_wrapper_ep_index-find_ep_in_iface :
    (h : Layout) (pipe : ℕ) (bytes : List ℕ) (ds : List (List ℕ))
    → h.endpoint_size ≡ descriptor_size
    → collect_endpoints h bytes ≡ some ds
    → length ds < max_endpoints
    → ((find_wrapper_ep_index pipe ds ≡ none)
        × ((ss : Option (List ℕ)) × (find_ep_in_iface h pipe bytes ≡ some (none, ss))))
      ⊎ ((i : ℕ) × (m : List ℕ) × (ss : Option (List ℕ)) × (find_wrapper_ep_index pipe ds ≡ some i)
          × (find_ep_in_iface h pipe bytes ≡ some (some m, ss))
          × (get_elem? ds i ≡ some (take descriptor_size m)))
unfolding find_wrapper_ep_index find_ep_in_iface collect_endpoints
find_wrapper_ep_index-find_ep_in_iface h pipe bytes ds size e l =
    let a = walk-Agree h (length bytes + 1) pipe bytes [] ds size (omega arith) e l in
    let same : a.new ≡ ds = let k = a.collected in cc in
    at_found a.found (rw same at a.same) a.searched (index-first_fit 0 pipe ds)
  where
    at_found :
        {ss : Option (List ℕ)} (found : Option (List ℕ))
        → descriptor_of found ≡ first_fit pipe ds
        → find_ep_loop h (length bytes + 1) pipe bytes none ≡ some (found, ss)
        → ((ep_index_loop 0 pipe ds ≡ none) × (first_fit pipe ds ≡ none))
          ⊎ ((j : ℕ) × (ep_index_loop 0 pipe ds ≡ some (0 + j))
              × (get_elem? ds j ≡ first_fit pipe ds)
              × (first_fit pipe ds ≢ none))
        → ((ep_index_loop 0 pipe ds ≡ none)
            × ((ss : Option (List ℕ)) × (find_ep_loop h (length bytes + 1) pipe bytes none
                  ≡ some (none, ss))))
          ⊎ ((i : ℕ) × (m : List ℕ) × (ss : Option (List ℕ)) × (ep_index_loop 0 pipe ds ≡ some i)
              × (find_ep_loop h (length bytes + 1) pipe bytes none ≡ some (some m, ss))
              × (get_elem? ds i ≡ some (take descriptor_size m)))
    at_found {ss} none d s (inl (a, b)) = inl (a, (ss, s))
    at_found (some m) d s (inl (a, b)) = absurd (let k = d ∙ b in ground arith)
    at_found none d s (inr (j, a, b, c)) = absurd (c (sym d))
    at_found {ss} (some m) d s (inr (j, a, b, c)) =
        let z : 0 + j ≡ j = omega arith in inr (j, m, ss, a ∙ ap some z, s, b ∙ sym d)
