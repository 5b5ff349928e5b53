-- ===== src/Usb/Wrappers/Shared.antt =====
-- Transfers to one endpoint of a wrapper share one pipe.
use lcompat.Base.{
  ℕ, zero, suc, ◌+◌, ◌≤◌, ◌<◌, ◌≡◌, ◌≢◌, refl, sym, ap, subst, ◌∙◌, true, false, not, ◌||◌, none,
  some, List, [], ◌∷◌, arith, length, get_elem?, get_or, set, ◌==◌, Bool-cases, Option-cases, inl,
  inr, get_or-set_self,
}
use mathlib.Core.Option.{none-ne-some}
use lcompat.Usb.{pipe_type, pipe_ctrl}
use lcompat.Usb.Descriptors.{Layout, find_wrapper_ep_index}
use lcompat.Usb.Descriptors.Agree.{index-first_fit}
use lcompat.Usb.Wrappers.{
  NativeDev, NativeIface, UsbWrapper, find_wrapper_for_pipe, Target, shared_target, Looked, has_ep,
  wrapper_pipe, get_native_pipe,
}

lt_of_get_elem? : (ds : List (List ℕ)) (i : ℕ) → get_elem? ds i ≢ none → i < length ds
lt_of_get_elem? [] i h = absurd (h refl)
lt_of_get_elem? (d ∷ ds) zero h = omega arith
lt_of_get_elem? (d ∷ ds) (suc i) h = omega (arith, lt_of_get_elem? ds i h)

find_wrapper_ep_index-lt :
    (pipe ep : ℕ) (ds : List (List ℕ)) → find_wrapper_ep_index pipe ds ≡ some ep → ep < length ds
unfolding find_wrapper_ep_index
find_wrapper_ep_index-lt pipe ep ds e = elim (index-first_fit 0 pipe ds) [
  | inl (a, b) ↦ absurd (none-ne-some ep (sym a ∙ e))
  | inr (j, a, b, c) ↦
      let same : 0 + j ≡ ep = let k = sym a ∙ e in cc in
      let l = lt_of_get_elem? ds j (λ z. c (sym b ∙ z)) in omega arith
]

-- Where the wrapper of a pipe stands, and that a change of its pipes is found there.
record Found (i0 : ℕ) (ws : List UsbWrapper) (dev pipe i ep : ℕ) (w : UsbWrapper) : Type 0 where
  pub place : ℕ
  pub at_place : i ≡ i0 + place
  pub endpoint : find_wrapper_ep_index pipe w.endpoints ≡ some ep
  pub again :
      (pipes : List ℕ)
      → find_wrapper_for_pipe i0 (set ws place (record w { native_pipes = pipes })) dev pipe
        ≡ some (i, ep, record w { native_pipes = pipes })

Found-here :
    (i0 dev pipe i ep : ℕ) (w v : UsbWrapper) (ws : List UsbWrapper)
    → (not v.used || not (v.native_dev.ptr == dev)) ≡ false
    → find_wrapper_ep_index pipe v.endpoints ≡ some ep
    → i0 ≡ i
    → v ≡ w
    → Found i0 (v ∷ ws) dev pipe i ep w
unfolding find_wrapper_for_pipe
Found-here i0 dev pipe i ep w v ws t e same_i same_w = rw (← same_w) (record {
  place = 0;
  at_place = omega arith;
  endpoint = e;
  again =
      λ pipes. rw (t, e) (ap (λ (n : ℕ). some (n, ep, record v { native_pipes = pipes })) same_i);
})

find-Found :
    (i0 : ℕ) (ws : List UsbWrapper) (dev pipe i ep : ℕ) (w : UsbWrapper)
    → find_wrapper_for_pipe i0 ws dev pipe ≡ some (i, ep, w)
    → Found i0 ws dev pipe i ep w
unfolding find_wrapper_for_pipe
find-Found i0 [] dev pipe i ep w e = absurd (none-ne-some (i, ep, w) e)
find-Found i0 (v ∷ ws) dev pipe i ep w e =
    elim (Bool-cases (not v.used || not (v.native_dev.ptr == dev))) [
      | inl t ↦
          let r = find-Found (i0 + 1) ws dev pipe i ep w (rw t at e) in
          record {
            place = suc r.place;
            at_place = omega (arith, r.at_place);
            endpoint = r.endpoint;
            again = λ pipes. rw t (r.again pipes);
          }
      | inr t ↦ elim (Option-cases (find_wrapper_ep_index pipe v.endpoints)) [
        | inl n ↦
            let r = find-Found (i0 + 1) ws dev pipe i ep w (rw (t, n) at e) in
            record {
              place = suc r.place;
              at_place = omega (arith, r.at_place);
              endpoint = r.endpoint;
              again = λ pipes. rw (t, n) (r.again pipes);
            }
        | inr (ep0, n) ↦
            let k = rw (t, n) at e in
            let same_ep : ep0 ≡ ep = cc in
            let same_i : i0 ≡ i = cc in
            let same_w : v ≡ w = cc in
            Found-here i0 dev pipe i ep w v ws t (n ∙ ap some same_ep) same_i same_w
      ]
    ]

-- What a look-up at a wrapper leaves for later ones.
module _ (h : Layout) (ws : List UsbWrapper) (dev pipe i ep : ℕ) (w : UsbWrapper) (st : Target)
    (alloc : ℕ) where
  abbrev first : Looked
  first = wrapper_pipe h ws pipe (some st) alloc (i, ep, w)

  record Settled : Type 0 where
    pub w' : UsbWrapper
    pub found : find_wrapper_for_pipe 0 first.table dev pipe ≡ some (i, ep, w')
    pub kept : get_or w'.native_pipes ep 0 ≡ first.pipe
    pub target : first.target ≡ some (shared_target i ep first.pipe)
    pub owned : first.owned ≡ false

  wrapper_pipe-Settled :
      find_wrapper_for_pipe 0 ws dev pipe ≡ some (i, ep, w)
      → length w.endpoints ≤ length w.native_pipes
      → first.pipe ≢ 0
      → Settled
  unfolding wrapper_pipe
  wrapper_pipe-Settled e room nz = elim (Bool-cases (get_or w.native_pipes ep 0 == 0)) [
    | inr p ↦ record {
      w' = w;
      found = rw (wrapper_pipe, p) e;
      kept = rw (wrapper_pipe, p) refl;
      target = rw (wrapper_pipe, p) refl;
      owned = rw (wrapper_pipe, p) refl;
    }
    | inl p ↦ elim (Bool-cases (not (has_ep h pipe w.native_intf) || alloc == 0)) [
      | inl q ↦ absurd (nz (rw (wrapper_pipe, p, q) refl))
      | inr q ↦
          let f = find-Found 0 ws dev pipe i ep w e in
          let pipes = set w.native_pipes ep alloc in
          let place : f.place ≡ i = omega (arith, f.at_place) in
          record {
            w' = record w { native_pipes = pipes };
            found =
                rw (wrapper_pipe, p, q)
                  (subst
                    (λ (n : ℕ).
                      find_wrapper_for_pipe 0 (set ws n (record w { native_pipes = pipes })) dev
                        pipe
                      ≡ some (i, ep, record w { native_pipes = pipes }))
                    place (f.again pipes));
            kept =
                rw (wrapper_pipe, p, q)
                  (get_or-set_self w.native_pipes ep alloc 0
                    (omega (arith, find_wrapper_ep_index-lt pipe ep w.endpoints f.endpoint)));
            target = rw (wrapper_pipe, p, q) refl;
            owned = rw (wrapper_pipe, p, q) refl;
          }
    ]
  ]

get_native_pipe-wrapper :
    (h : Layout) (ws : List UsbWrapper) (d : NativeDev) (ifaces : List NativeIface) (pipe alloc : ℕ)
    (st : Target) (r : ℕ × ℕ × UsbWrapper)
    → (pipe_type pipe == pipe_ctrl) ≡ false
    → st.native_pipe ≡ 0
    → find_wrapper_for_pipe 0 ws d.ptr pipe ≡ some r
    → get_native_pipe h ws d ifaces pipe (some st) alloc ≡ wrapper_pipe h ws pipe (some st) alloc r
unfolding get_native_pipe
get_native_pipe-wrapper h ws d ifaces pipe alloc st r c z e =
    let t : (not (st.native_pipe == 0)) ≡ false = ground arith in rw (get_native_pipe, c, t, e) refl

wrapper_pipe-again :
    (h : Layout) (ws : List UsbWrapper) (pipe alloc i ep p : ℕ) (st : Target) (w : UsbWrapper)
    → get_or w.native_pipes ep 0 ≡ p
    → p ≢ 0
    → wrapper_pipe h ws pipe (some st) alloc (i, ep, w)
      ≡ record { pipe = p; table = ws; target = some (shared_target i ep p); owned = false }
unfolding wrapper_pipe
wrapper_pipe-again h ws pipe alloc i ep p st w e nz =
    let t : (not (p == 0)) ≡ true = ground arith in rw (wrapper_pipe, e, t) refl

-- The look-up behind one that gave `l`.
again_shared :
    (h : Layout) (l : Looked) (d : NativeDev) (ifaces : List NativeIface) (pipe alloc i ep : ℕ)
    (st : Target) (w : UsbWrapper)
    → (pipe_type pipe == pipe_ctrl) ≡ false
    → st.native_pipe ≡ 0
    → find_wrapper_for_pipe 0 l.table d.ptr pipe ≡ some (i, ep, w)
    → get_or w.native_pipes ep 0 ≡ l.pipe
    → l.pipe ≢ 0
    → l.target ≡ some (shared_target i ep l.pipe)
    → let two = get_native_pipe h l.table d ifaces pipe (some st) alloc in
      (two.pipe ≡ l.pipe)
      × (two.table ≡ l.table)
      × (two.target ≡ l.target)
      × (l.target ≡ some (shared_target i ep l.pipe))
      × (two.owned ≡ false)
again_shared h l d ifaces pipe alloc i ep st w c z e k nz t =
    let two =
      get_native_pipe-wrapper h l.table d ifaces pipe alloc st (i, ep, w) c z e
      ∙ wrapper_pipe-again h l.table pipe alloc i ep l.pipe st w k nz in
    rw two (refl, refl, sym t, t, refl)

-- When a URB without a pipe has been given the pipe of a wrapper's endpoint, each later URB without a pipe
-- for the same endpoint is given the same pipe and the same queue, though the host may allocate another,
-- and the table of wrappers stays as it is. The wrapper has a place for the pipe of each endpoint.
pub get_native_pipe-shared :
    (h : Layout) (ws : List UsbWrapper) (d : NativeDev) (ifaces : List NativeIface)
    (pipe alloc alloc' i ep : ℕ) (st st' : Target) (w : UsbWrapper)
    → (pipe_type pipe == pipe_ctrl) ≡ false
    → st.native_pipe ≡ 0
    → st'.native_pipe ≡ 0
    → find_wrapper_for_pipe 0 ws d.ptr pipe ≡ some (i, ep, w)
    → length w.endpoints ≤ length w.native_pipes
    → (get_native_pipe h ws d ifaces pipe (some st) alloc).pipe ≢ 0
    → let one = get_native_pipe h ws d ifaces pipe (some st) alloc in
      let two = get_native_pipe h one.table d ifaces pipe (some st') alloc' in
      (two.pipe ≡ one.pipe)
      × (two.table ≡ one.table)
      × (two.target ≡ one.target)
      × (one.target ≡ some (shared_target i ep one.pipe))
      × (two.owned ≡ false)
get_native_pipe-shared h ws d ifaces pipe alloc alloc' i ep st st' w c z z' e room nz =
    let e1 = get_native_pipe-wrapper h ws d ifaces pipe alloc st (i, ep, w) c z e in
    let l = first h ws d.ptr pipe i ep w st alloc in
    let nz' : l.pipe ≢ 0 = subst (λ (k : Looked). k.pipe ≢ 0) e1 nz in
    let s = wrapper_pipe-Settled h ws d.ptr pipe i ep w st alloc e room nz' in
    subst
      (λ (k : Looked).
        ((get_native_pipe h k.table d ifaces pipe (some st') alloc').pipe ≡ k.pipe)
        × ((get_native_pipe h k.table d ifaces pipe (some st') alloc').table ≡ k.table)
        × ((get_native_pipe h k.table d ifaces pipe (some st') alloc').target ≡ k.target)
        × (k.target ≡ some (shared_target i ep k.pipe))
        × ((get_native_pipe h k.table d ifaces pipe (some st') alloc').owned ≡ false))
      (sym e1)
      (again_shared h l d ifaces pipe alloc' i ep st' s.w' c z' s.found s.kept nz' s.target)
