-- ===== src/Usb/Bus/Kept.antt =====
-- Starting and completing a transfer leave what counts its owners alone.
use lcompat.Base.{
  ℕ, ◌≡◌, refl, ◌∙◌, subst, arith, Bool, true, false, Option, none, some, List, Bool-cases, inl,
  inr, ltb, ◌==◌, not, ◌&&◌, if◌then◌else◌, ℤ, pos,
}
use lcompat.Usb.{Status, Outcome, ret, bad, Codes, is_fine, int_eq, pipe_dir_in}
use lcompat.Usb.Sg.{sg_copy_from_urb}
use lcompat.Usb.Urb.{
  NativePipe, Urb, has_sg, urb_data_len, grow_buffer, gathered, fill_buffer, grown, prepared,
  prepare_urb_buffer, submit_on, submit_native_urb, submit_prepared, StartHost, start_urb,
  needs_zlp, after_zlp, deliver,
}

-- The fields that say who has a URB.
pub record Kept (u v : Urb) : Type 0 where
  pub submitted : v.submitted ≡ u.submitted
  pub refcount : v.refcount ≡ u.refcount
  pub freed : v.freed ≡ u.freed
  pub killed : v.killed ≡ u.killed

same : (u : Urb) → Kept u u
same u = record { submitted = refl; refcount = refl; freed = refl; killed = refl }

gathered-Kept : (u : Urb) (n : ℕ) (r : Outcome (List ℕ)) → Kept u (gathered u n r).1
unfolding gathered
gathered-Kept u n (bad e) = same u
gathered-Kept u n (ret bytes) = record {
  submitted = refl;
  refcount = refl;
  freed = refl;
  killed = refl;
}

Kept-if {ℓ} :
    {A : Type ℓ} (u : Urb) (b : Bool) (x y : A × Urb)
    → Kept u x.1
    → Kept u y.1
    → Kept u (if b then x else y).1
Kept-if u true x y k l = k
Kept-if u false x y k l = l

fill_buffer-Kept : (u : Urb) (n : ℕ) → Kept u (fill_buffer u n).1
unfolding fill_buffer
fill_buffer-Kept u n =
    Kept-if u (pipe_dir_in u.pipe) _ _ (same u)
      (Kept-if u (u.sg_buffer_len == 0) _ _ (same u) (gathered-Kept u n (sg_copy_from_urb u.sg n)))

grow_buffer-Kept : (u v : Urb) (n : ℕ) (m : Option (List ℕ)) → grow_buffer u n m ≡ ret v → Kept u v
unfolding grow_buffer
grow_buffer-Kept u v n none e = elim (Bool-cases (ltb u.sg_buffer_len n)) [
  | inl t ↦ let k = rw t at e in absurd (ground arith)
  | inr t ↦ let k : u ≡ v = let k' = rw t at e in cc in subst (Kept u) k (same u)
]
grow_buffer-Kept u v n (some bytes) e = elim (Bool-cases (ltb u.sg_buffer_len n)) [
  | inl t ↦
      let k : record u { sg_buffer = bytes; sg_buffer_len = n } ≡ v = let k' = rw t at e in cc in
      subst (Kept u) k (record { submitted = refl; refcount = refl; freed = refl; killed = refl })
  | inr t ↦ let k : u ≡ v = let k' = rw t at e in cc in subst (Kept u) k (same u)
]

Kept-trans : (u v w : Urb) → Kept u v → Kept v w → Kept u w
Kept-trans u v w k l = record {
  submitted = l.submitted ∙ k.submitted;
  refcount = l.refcount ∙ k.refcount;
  freed = l.freed ∙ k.freed;
  killed = l.killed ∙ k.killed;
}

grown-Kept :
    (u : Urb) (n : ℕ) (r : Outcome Urb) (m : Option (List ℕ))
    → grow_buffer u n m ≡ r
    → Kept u (grown u n r).1
unfolding grown
grown-Kept u n (bad e) m q = same u
grown-Kept u n (ret v) m q =
    Kept-trans u v (fill_buffer v n).1 (grow_buffer-Kept u v n m q) (fill_buffer-Kept v n)

prepared-Kept : (u : Urb) (m : Option (List ℕ)) (r : Outcome ℕ) → Kept u (prepared u m r).1
unfolding prepared
prepared-Kept u m (bad e) = same u
prepared-Kept u m (ret n) =
    let u1 = record u { submitted_length = n; submitted_sg = has_sg u.sg } in
    let k : Kept u u1 = record { submitted = refl; refcount = refl; freed = refl; killed = refl } in
    Kept-if u (not (has_sg u.sg)) (ret n, u1) (grown u1 n (grow_buffer u1 n m)) k
      (Kept-trans u u1 (grown u1 n (grow_buffer u1 n m)).1 k
        (grown-Kept u1 n (grow_buffer u1 n m) m refl))

submit_on-Kept : (p : Option NativePipe) (u : Urb) (n : ℕ) (a : ℤ) → Kept u (submit_on p u n a).1
unfolding submit_on
submit_on-Kept none u n a = same u
submit_on-Kept (some p) u n a = record {
  submitted = refl;
  refcount = refl;
  freed = refl;
  killed = refl;
}

submit_prepared-Kept :
    (u : Urb) (r : Outcome ℕ × Urb) (a : ℤ) → Kept u r.1 → Kept u (submit_prepared r a).1
unfolding submit_prepared submit_native_urb
submit_prepared-Kept u (bad e, v) a k = k
submit_prepared-Kept u (ret n, v) a k =
    Kept-trans u v (submit_on v.native_pipe v n a).1 k (submit_on-Kept v.native_pipe v n a)

pub start_urb-Kept : (u : Urb) (h : StartHost) → Kept u (start_urb u h).1
unfolding start_urb prepare_urb_buffer
start_urb-Kept u h =
    submit_prepared-Kept u (prepared u h.memory (urb_data_len u)) h.answer
      (prepared-Kept u h.memory (urb_data_len u))

pub after_zlp-Kept : (c : Codes) (u : Urb) (r : Status × ℕ) (a : ℤ) → Kept u (after_zlp c u r a).1
unfolding after_zlp
after_zlp-Kept c u (s, n) a =
    Kept-if u u.zlp_pending _ _
      (record { submitted = refl; refcount = refl; freed = refl; killed = refl })
      (Kept-if u (needs_zlp u s n) _ _
        (Kept-if u (int_eq a (pos 0)) _ _
          (record { submitted = refl; refcount = refl; freed = refl; killed = refl })
          (record { submitted = refl; refcount = refl; freed = refl; killed = refl }))
        (same u))

pub deliver-Kept : (u : Urb) (r : Status × ℕ) (bytes : List ℕ) → Kept u (deliver u r bytes).1
unfolding deliver
deliver-Kept u (s, n) bytes =
    Kept-if u (not (is_fine s && pipe_dir_in u.pipe && ltb 0 n && u.submitted_sg)) _ _ (same u) (
      Kept-if u (u.sg_buffer_len == 0) _ _ (same u)
        (record { submitted = refl; refcount = refl; freed = refl; killed = refl }))
