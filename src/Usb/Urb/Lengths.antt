-- ===== src/Usb/Urb/Lengths.antt =====
-- A transfer whose length was accepted is copied whole, in both directions.
use lcompat.Base.{
  ℕ, zero, suc, ◌≤◌, ◌<◌, ◌≡◌, refl, ap, ◌∙◌, true, false, some, List, [], ◌∷◌, ◌++◌, arith, length,
  take, drop, ltb, ◌==◌, ℤ, pos, negsuc, Bool-cases, inl, inr,
}
use lcompat.Base.Words.{int_max}
use lcompat.Usb.{fine, Outcome, ret, bad, pipe_dir_in}
use lcompat.Usb.Sg.{Sg, sg_total_len, sg_copy_from_urb}
use lcompat.Usb.Sg.Copies.{
  flat, AllVirt, sg_total_len-Totalled, sg_copy_from_urb_lem, sg_copy_to_urb_lem,
}
use lcompat.Usb.Urb.{
  Urb, has_sg, sg_data_len, urb_data_len, grow_buffer, gathered, fill_buffer, grown, prepared,
  prepare_urb_buffer, deliver,
}

-- A length of `n` bytes is there in the scatter list, and fits an `int`.
pub record Fits (ss : List Sg) (n : ℕ) : Type 0 where
  pub all_virt : AllVirt ss
  pub there : n ≤ length (flat ss)
  pub small : n ≤ int_max

sg_data_len-le : (b : ℤ) (total n : ℕ) → sg_data_len b total ≡ ret n → n ≤ total
unfolding sg_data_len
sg_data_len-le (negsuc k) total n e = ground arith
sg_data_len-le (pos k) total n e = ground arith

urb_data_len-Fits : (u : Urb) (n : ℕ) → has_sg u.sg ≡ true → urb_data_len u ≡ ret n → Fits u.sg n
unfolding urb_data_len
urb_data_len-Fits u n h e = at_total (sg_total_len u.sg) refl (rw h at e)
  where
    at_total :
        (t : Outcome ℕ)
        → sg_total_len u.sg ≡ t
        → (elim t [ bad e ↦ bad e | ret total ↦ sg_data_len u.transfer_buffer_length total ])
          ≡ ret n
        → Fits u.sg n
    at_total (bad s) eq k = absurd (ground arith)
    at_total (ret total) eq k =
        let t = sg_total_len-Totalled u.sg total eq in
        let le = sg_data_len-le u.transfer_buffer_length total n k in
        record {
          all_virt = t.all_virt;
          there = omega (arith, t.sum);
          small = omega (arith, t.fits);
        }

take_back : (n : ℕ) (f ys : List ℕ) → n ≤ length f → take n (take n f ++ ys) ≡ take n f
take_back zero f ys h = refl
take_back (suc n) [] ys h = absurd (omega arith)
take_back (suc n) (x ∷ f) ys h = ap (λ (l : List ℕ). x ∷ l) (take_back n f ys (omega arith))

fill_buffer_lem :
    (u : Urb) (n : ℕ)
    → pipe_dir_in u.pipe ≡ false
    → 0 < u.sg_buffer_len
    → Fits u.sg n
    → ((fill_buffer u n).0 ≡ ret n) × (take n (fill_buffer u n).1.sg_buffer ≡ take n (flat u.sg))
unfolding fill_buffer gathered
fill_buffer_lem u n d b f =
    let z : (u.sg_buffer_len == 0) ≡ false = ground arith in
    rw (d, z, sg_copy_from_urb_lem u.sg n f.all_virt f.there)
      (refl, take_back n (flat u.sg) (drop n u.sg_buffer) f.there)

-- What `grow_buffer` gives where `krealloc` succeeds.
record Grown (u : Urb) (n : ℕ) (bytes : List ℕ) : Type 0 where
  pub urb : Urb
  pub eq : grow_buffer u n (some bytes) ≡ ret urb
  pub same_sg : urb.sg ≡ u.sg
  pub same_pipe : urb.pipe ≡ u.pipe
  pub same_length : urb.submitted_length ≡ u.submitted_length
  pub room : n ≤ urb.sg_buffer_len

grow_buffer-Grown : (u : Urb) (n : ℕ) (bytes : List ℕ) → Grown u n bytes
unfolding grow_buffer
grow_buffer-Grown u n bytes = elim (Bool-cases (ltb u.sg_buffer_len n)) [
  | inl e ↦ record {
    urb = record u { sg_buffer = bytes; sg_buffer_len = n };
    eq = rw e refl;
    same_sg = refl;
    same_pipe = refl;
    same_length = refl;
    room = omega arith;
  }
  | inr e ↦ record {
    urb = u;
    eq = rw e refl;
    same_sg = refl;
    same_pipe = refl;
    same_length = refl;
    room = ground arith;
  }
]

gathered-submitted_length :
    (u : Urb) (n : ℕ) (r : Outcome (List ℕ))
    → (gathered u n r).1.submitted_length ≡ u.submitted_length
unfolding gathered
gathered-submitted_length u n (bad s) = refl
gathered-submitted_length u n (ret bytes) = refl

fill_buffer-submitted_length :
    (u : Urb) (n : ℕ) → (fill_buffer u n).1.submitted_length ≡ u.submitted_length
unfolding fill_buffer
fill_buffer-submitted_length u n = elim (Bool-cases (pipe_dir_in u.pipe)) [
  | inl e ↦ rw e refl
  | inr e ↦ elim (Bool-cases (u.sg_buffer_len == 0)) [
    | inl z ↦ rw (e, z) refl
    | inr z ↦ rw (e, z) (gathered-submitted_length u n (sg_copy_from_urb u.sg n))
  ]
]

-- When the length of a transfer out with a scatter list is accepted and not 0, and `krealloc` succeeds,
-- preparing it succeeds with this length, and the bounce buffer begins with the first bytes of the list.
pub prepare_urb_buffer_gathers :
    (u : Urb) (n : ℕ) (bytes : List ℕ)
    → has_sg u.sg ≡ true
    → pipe_dir_in u.pipe ≡ false
    → urb_data_len u ≡ ret n
    → 0 < n
    → let (len, u') = prepare_urb_buffer u (some bytes) in
      (len ≡ ret n) × (take n u'.sg_buffer ≡ take n (flat u.sg)) × (u'.submitted_length ≡ n)
unfolding prepare_urb_buffer prepared grown
prepare_urb_buffer_gathers u n bytes h d e p =
    let u1 = record u { submitted_length = n; submitted_sg = true } in
    let g = grow_buffer-Grown u1 n bytes in
    let fits : Fits g.urb.sg n = rw g.same_sg (urb_data_len-Fits u n h e) in
    let (r, t) =
      fill_buffer_lem g.urb n (ap pipe_dir_in g.same_pipe ∙ d) (omega (arith, g.room)) fits in
    rw (prepare_urb_buffer, e, h, g.eq)
      (
        r,
        t ∙ ap (λ (l : List Sg). take n (flat l)) g.same_sg,
        fill_buffer-submitted_length g.urb n ∙ g.same_length,
      )

-- What came in goes to the scatter list whole, when it is no longer than the accepted length: the
-- status stays, the list begins with the received bytes, and the bytes behind them are kept.
pub deliver_scatters :
    (u : Urb) (n actual : ℕ) (bytes : List ℕ)
    → has_sg u.sg ≡ true
    → pipe_dir_in u.pipe ≡ true
    → u.submitted_sg ≡ true
    → 0 < u.sg_buffer_len
    → urb_data_len u ≡ ret n
    → 0 < actual
    → actual ≤ n
    → let (s, u') = deliver u (fine, actual) bytes in
      (s ≡ fine) × (flat u'.sg ≡ take actual bytes ++ drop actual (flat u.sg))
unfolding deliver
deliver_scatters u n actual bytes h d g b e p le =
    let f = urb_data_len-Fits u n h e in
    let t : ltb 0 actual ≡ true = ground arith in
    let z : (u.sg_buffer_len == 0) ≡ false = ground arith in
    rw (d, g, t, z) (sg_copy_to_urb_lem u.sg bytes actual f.all_virt (omega (arith, f.there)))
