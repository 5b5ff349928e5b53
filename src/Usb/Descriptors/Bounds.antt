-- ===== src/Usb/Descriptors/Bounds.antt =====
-- The walk that collects the endpoints of a wrapper stays within its array.
use lcompat.Base.{
  ℕ, zero, suc, ◌+◌, ◌≤◌, ◌<◌, ◌≡◌, refl, ◌&&◌, ◌||◌, Option, some, List, [], ◌∷◌, ◌++◌, arith,
  length, take, drop, get_or, ltb, leb, ◌==◌, if◌then◌else◌, Bool-cases, inl, inr, length-append,
  length-take, length-drop,
}
use lcompat.Usb.Descriptors.{
  Layout, max_endpoints, descriptor_size, collect_loop, collect_endpoints,
}

-- Every list has the size of an endpoint descriptor.
abbrev pub AllSized : List (List ℕ) → Type 0
AllSized [] = Unit {0}
AllSized (d ∷ ds) = (length d ≡ descriptor_size) × AllSized ds

AllSized-append :
    (ds : List (List ℕ)) (d : List ℕ)
    → AllSized ds
    → length d ≡ descriptor_size
    → AllSized (ds ++ (d ∷ []))
AllSized-append [] d h e = (e, tt)
AllSized-append (d' ∷ ds) d h e = (h.0, AllSized-append ds d h.1 e)

-- What a walk leaves in the array of a wrapper.
pub record Collected (r : Option (List (List ℕ))) : Type 0 where
  pub endpoints : List (List ℕ)
  pub eq : r ≡ some endpoints
  pub room : length endpoints ≤ max_endpoints
  pub sized : AllSized endpoints

-- The array with the descriptor of this round.
unfoldable pub added : Layout → List ℕ → List (List ℕ) → List (List ℕ)
added h bytes ds =
    if get_or bytes 1 0 == h.dt_endpoint && leb descriptor_size (length bytes)
    then ds ++ (take descriptor_size bytes ∷ [])
    else ds

added-AllSized :
    (h : Layout) (bytes : List ℕ) (ds : List (List ℕ)) → AllSized ds → AllSized (added h bytes ds)
unfolding added
added-AllSized h bytes ds a =
    elim (Bool-cases (get_or bytes 1 0 == h.dt_endpoint && leb descriptor_size (length bytes))) [
      | inl e ↦ rw e (
          AllSized-append ds (take descriptor_size bytes) a
            (length-take descriptor_size bytes (ground arith)))
      | inr e ↦ rw e a
    ]

added-room :
    (h : Layout) (bytes : List ℕ) (ds : List (List ℕ)) → length (added h bytes ds) ≤ length ds + 1
unfolding added
added-room h bytes ds = ground (arith, length-append ds (take descriptor_size bytes ∷ []))

collect_loop-Collected :
    (h : Layout) (fuel : ℕ) (bytes : List ℕ) (ds : List (List ℕ))
    → length bytes < fuel
    → length ds ≤ max_endpoints
    → AllSized ds
    → Collected (collect_loop h fuel bytes ds)
unfolding collect_loop added
collect_loop-Collected h zero bytes ds f r a = absurd (omega arith)
collect_loop-Collected h (suc fuel) bytes ds f r a =
    elim (Bool-cases (ltb (length bytes) 2 || leb max_endpoints (length ds))) [
      | inl e ↦ rw e (record { endpoints = ds; eq = refl; room = r; sized = a })
      | inr e ↦ elim (Bool-cases (ltb (get_or bytes 0 0) 2 || get_or bytes 1 0 == h.dt_interface)) [
        | inl g ↦ rw (e, g) (record { endpoints = ds; eq = refl; room = r; sized = a })
        | inr g ↦
            rw (e, g)
              (collect_loop-Collected h fuel (drop (get_or bytes 0 0) bytes) (added h bytes ds)
                (ground (arith, length-drop (get_or bytes 0 0) bytes))
                (ground (arith, added-room h bytes ds)) (added-AllSized h bytes ds a))
      ]
    ]

-- Whatever the bytes behind an interface descriptor are, the walk over them ends, writes at most the 16
-- entries that a wrapper has room for, and each entry is a whole endpoint descriptor.
pub collect_endpoints-Collected :
    (h : Layout) (bytes : List ℕ) → Collected (collect_endpoints h bytes)
unfolding collect_endpoints
collect_endpoints-Collected h bytes =
    collect_loop-Collected h (length bytes + 1) bytes [] (omega arith) (omega arith) tt
