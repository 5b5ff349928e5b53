-- ===== src/Usb/Descriptors/Rounds.antt =====
-- One round of the walk that collects endpoints, beside one round of the walk that searches for one.
use lcompat.Base.{
  ℕ, zero, suc, ◌<◌, ◌≡◌, refl, sym, ap, ◌∙◌, true, false, ◌&&◌, ◌||◌, Option, none, some, List, [],
  ◌∷◌, ◌++◌, arith, length, take, drop, get_or, ltb, leb, ◌==◌, if◌then◌else◌, if_true, if_false,
  Bool-cases, inl, inr,
}
use mathlib.Core.List.{append_assoc}
use lcompat.Usb.Descriptors.{
  Layout, max_endpoints, descriptor_size, endpoint_address, endpoint_xfertype, collect_loop,
  fits_pipe, find_ep_loop,
}
use lcompat.Usb.Descriptors.Bounds.{added}

-- The first descriptor of a pipe's endpoint.
unfoldable pub first_fit : ℕ → List (List ℕ) → Option (List ℕ)
first_fit pipe [] = none
first_fit pipe (d ∷ ds) = if fits_pipe pipe d then some d else first_fit pipe ds

get_or-take : (i n : ℕ) (xs : List ℕ) (d : ℕ) → i < n → get_or (take n xs) i d ≡ get_or xs i d
get_or-take i zero xs d h = absurd (omega arith)
get_or-take i (suc n) [] d h = refl
get_or-take zero (suc n) (x ∷ xs) d h = refl
get_or-take (suc i) (suc n) (x ∷ xs) d h = get_or-take i n xs d (omega arith)

fits_pipe-take :
    (pipe : ℕ) (bytes : List ℕ) → fits_pipe pipe (take descriptor_size bytes) ≡ fits_pipe pipe bytes
unfolding fits_pipe endpoint_address endpoint_xfertype
fits_pipe-take pipe bytes =
    rw (get_or-take 2 7 bytes 0 (omega arith), get_or-take 3 7 bytes 0 (omega arith)) refl

-- Behind a match the walk ends in the next round.
find_ep_loop-matched :
    (h : Layout) (fuel pipe : ℕ) (bytes m : List ℕ)
    → (ss : Option (List ℕ)) × (find_ep_loop h (suc fuel) pipe bytes (some m) ≡ some (some m, ss))
unfolding find_ep_loop
find_ep_loop-matched h fuel pipe bytes m = elim (Bool-cases (ltb (length bytes) 2)) [
  | inl e ↦ (none, rw e refl)
  | inr e ↦ elim (Bool-cases (ltb (get_or bytes 0 0) 2 || get_or bytes 1 0 == h.dt_interface)) [
    | inl g ↦ (none, rw (e, g) refl)
    | inr g ↦
        elim (Bool-cases
          (get_or bytes 1 0 == h.dt_companion && leb h.companion_size (length bytes))) [
            | inl k ↦ (some bytes, rw (e, g, k) refl)
            | inr k ↦ (none, rw (e, g, k) refl)
          ]
  ]
]

-- The bytes of an endpoint descriptor.
abbrev pub descriptor_of : Option (List ℕ) → Option (List ℕ)
descriptor_of none = none
descriptor_of (some bytes) = some (take descriptor_size bytes)

-- What the walks of a wrapper and of a search give for the same bytes.
pub record Agree (h : Layout) (fuel pipe : ℕ) (bytes : List ℕ) (ds : List (List ℕ)) : Type 0 where
  pub new : List (List ℕ)
  pub found : Option (List ℕ)
  pub companion : Option (List ℕ)
  pub collected : collect_loop h fuel bytes ds ≡ some (ds ++ new)
  pub searched : find_ep_loop h fuel pipe bytes none ≡ some (found, companion)
  pub same : descriptor_of found ≡ first_fit pipe new

-- One round of both walks before a match.
module _ (h : Layout) (fuel pipe : ℕ) (bytes : List ℕ) (ds : List (List ℕ))
    (size : h.endpoint_size ≡ descriptor_size)
    (long : (ltb (length bytes) 2 || leb max_endpoints (length ds)) ≡ false)
    (going : (ltb (get_or bytes 0 0) 2 || get_or bytes 1 0 == h.dt_interface) ≡ false) where
  pub round-collect :
      collect_loop h (suc fuel) bytes ds
      ≡ collect_loop h fuel (drop (get_or bytes 0 0) bytes) (added h bytes ds)
  unfolding collect_loop added
  round-collect = rw (long, going) refl

  short_no : ltb (length bytes) 2 ≡ false
  short_no = ground (arith, long)

  round-search :
      (o : Option (List ℕ))
      → (if get_or bytes 1 0 == h.dt_endpoint
            && leb h.endpoint_size (length bytes)
            && fits_pipe pipe bytes
          then some bytes
          else none)
        ≡ o
      → find_ep_loop h (suc fuel) pipe bytes none
        ≡ find_ep_loop h fuel pipe (drop (get_or bytes 0 0) bytes) o
  unfolding find_ep_loop
  round-search o e = rw (short_no, going, e) refl

  -- A descriptor that is not an endpoint's adds nothing and matches nothing.
  pub Agree-other :
      (get_or bytes 1 0 == h.dt_endpoint && leb descriptor_size (length bytes)) ≡ false
      → Agree h fuel pipe (drop (get_or bytes 0 0) bytes) (added h bytes ds)
      → Agree h (suc fuel) pipe bytes ds
  unfolding added
  Agree-other off a =
      let same : added h bytes ds ≡ ds = rw (added, off) refl in
      let miss : (get_or bytes 1 0 == h.dt_endpoint
            && leb h.endpoint_size (length bytes)
            && fits_pipe pipe bytes)
          ≡ false =
        rw size (ground (arith, off)) in
      record {
        new = a.new;
        found = a.found;
        companion = a.companion;
        collected =
            round-collect ∙ a.collected ∙ ap (λ (l : List (List ℕ)). some (l ++ a.new)) same;
        searched = round-search none (if_false _ _ _ miss) ∙ a.searched;
        same = a.same;
      }

  -- An endpoint's descriptor, and what follows.
  collected_one :
      (get_or bytes 1 0 == h.dt_endpoint && leb descriptor_size (length bytes)) ≡ true
      → (new : List (List ℕ))
      → collect_loop h fuel (drop (get_or bytes 0 0) bytes) (added h bytes ds)
        ≡ some (added h bytes ds ++ new)
      → collect_loop h (suc fuel) bytes ds ≡ some (ds ++ (take descriptor_size bytes ∷ new))
  unfolding added
  collected_one here new e =
      let one : added h bytes ds ≡ ds ++ (take descriptor_size bytes ∷ []) =
        rw (added, here) refl in
      round-collect
      ∙ e
      ∙ ap (λ (l : List (List ℕ)). some (l ++ new)) one
      ∙ ap some (append_assoc ds (take descriptor_size bytes ∷ []) new)

  pub Agree-miss :
      (get_or bytes 1 0 == h.dt_endpoint && leb descriptor_size (length bytes)) ≡ true
      → fits_pipe pipe bytes ≡ false
      → Agree h fuel pipe (drop (get_or bytes 0 0) bytes) (added h bytes ds)
      → Agree h (suc fuel) pipe bytes ds
  unfolding first_fit
  Agree-miss here off a =
      let miss : (get_or bytes 1 0 == h.dt_endpoint
            && leb h.endpoint_size (length bytes)
            && fits_pipe pipe bytes)
          ≡ false =
        rw size (ground (arith, off)) in
      record {
        new = take descriptor_size bytes ∷ a.new;
        found = a.found;
        companion = a.companion;
        collected = collected_one here a.new a.collected;
        searched = round-search none (if_false _ _ _ miss) ∙ a.searched;
        same = a.same ∙ sym (if_false _ _ _ (fits_pipe-take pipe bytes ∙ off));
      }

pub Agree-hit :
    (h : Layout) (fuel pipe : ℕ) (bytes : List ℕ) (ds : List (List ℕ))
    → h.endpoint_size ≡ descriptor_size
    → (ltb (length bytes) 2 || leb max_endpoints (length ds)) ≡ false
    → (ltb (get_or bytes 0 0) 2 || get_or bytes 1 0 == h.dt_interface) ≡ false
    → (get_or bytes 1 0 == h.dt_endpoint && leb descriptor_size (length bytes)) ≡ true
    → fits_pipe pipe bytes ≡ true
    → Agree h (suc fuel) pipe (drop (get_or bytes 0 0) bytes) (added h bytes ds)
    → Agree h (suc (suc fuel)) pipe bytes ds
unfolding first_fit
Agree-hit h fuel pipe bytes ds size long going here fits a =
    let hit : (get_or bytes 1 0 == h.dt_endpoint
          && leb h.endpoint_size (length bytes)
          && fits_pipe pipe bytes)
        ≡ true =
      rw size (ground (arith, here, fits)) in
    let (ss, e) = find_ep_loop-matched h fuel pipe (drop (get_or bytes 0 0) bytes) bytes in
    record {
      new = take descriptor_size bytes ∷ a.new;
      found = some bytes;
      companion = ss;
      collected = collected_one h (suc fuel) pipe bytes ds size long going here a.new a.collected;
      searched =
          round-search h (suc fuel) pipe bytes ds size long going (some bytes) (if_true _ _ _ hit)
          ∙ e;
      same = sym (if_true _ _ _ (fits_pipe-take pipe bytes ∙ fits));
    }
