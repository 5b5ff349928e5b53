-- ===== src/Usb/Sg/Copies.antt =====
-- Gathering and scattering, as operations on the bytes of all entries.
use lcompat.Base.{
  ℕ, zero, suc, ◌+◌, ◌-◌, ◌≤◌, ◌≡◌, refl, sym, ap, ◌∙◌, true, false, List, [], ◌∷◌, ◌++◌, arith,
  min, length, take, drop, ltb, ◌==◌, Bool-cases, inl, inr, length-append, length-take,
}
use mathlib.Core.List.{append-nil, append_assoc}
use lcompat.Base.Words.{int_max}
use lcompat.Usb.{fine, ret}
use lcompat.Usb.Sg.{
  Sg, sg_total_loop, sg_total_len, copy_from_loop, sg_copy_from_urb, copy_to_loop, sg_copy_to_urb,
}

-- The bytes of all entries.
abbrev pub flat : List Sg → List ℕ
flat [] = []
flat (s ∷ ss) = s.bytes ++ flat ss

abbrev pub AllVirt : List Sg → Type 0
AllVirt [] = Unit {0}
AllVirt (s ∷ ss) = (s.has_virt ≡ true) × AllVirt ss

take_all :
    (n : ℕ) (xs ys : List ℕ) → length xs ≤ n → take n (xs ++ ys) ≡ xs ++ take (n - length xs) ys
take_all n [] ys h = let e : n - 0 ≡ n = omega arith in rw e refl
take_all zero (x ∷ xs) ys h = absurd (omega arith)
take_all (suc n) (x ∷ xs) ys h =
    let e : suc n - length (x ∷ xs) ≡ n - length xs = omega arith in
    rw e (ap (λ (l : List ℕ). x ∷ l) (take_all n xs ys (omega arith)))

take_part : (n : ℕ) (xs ys : List ℕ) → n ≤ length xs → take n (xs ++ ys) ≡ take n xs
take_part zero xs ys h = refl
take_part (suc n) [] ys h = absurd (omega arith)
take_part (suc n) (x ∷ xs) ys h = ap (λ (l : List ℕ). x ∷ l) (take_part n xs ys (omega arith))

take_whole : (n : ℕ) (xs : List ℕ) → length xs ≤ n → take n xs ≡ xs
take_whole zero [] h = refl
take_whole (suc n) [] h = refl
take_whole zero (x ∷ xs) h = absurd (omega arith)
take_whole (suc n) (x ∷ xs) h = ap (λ (l : List ℕ). x ∷ l) (take_whole n xs (omega arith))

drop_all : (n : ℕ) (xs ys : List ℕ) → length xs ≤ n → drop n (xs ++ ys) ≡ drop (n - length xs) ys
drop_all n [] ys h = let e : n - 0 ≡ n = omega arith in rw e refl
drop_all zero (x ∷ xs) ys h = absurd (omega arith)
drop_all (suc n) (x ∷ xs) ys h =
    let e : suc n - length (x ∷ xs) ≡ n - length xs = omega arith in
    rw e (drop_all n xs ys (omega arith))

drop_part : (n : ℕ) (xs ys : List ℕ) → n ≤ length xs → drop n (xs ++ ys) ≡ drop n xs ++ ys
drop_part zero xs ys h = refl
drop_part (suc n) [] ys h = absurd (omega arith)
drop_part (suc n) (x ∷ xs) ys h = drop_part n xs ys (omega arith)

drop_whole : (n : ℕ) (xs : List ℕ) → length xs ≤ n → drop n xs ≡ []
drop_whole zero [] h = refl
drop_whole (suc n) [] h = refl
drop_whole zero (x ∷ xs) h = absurd (omega arith)
drop_whole (suc n) (x ∷ xs) h = drop_whole n xs (omega arith)

drop-drop : (m n : ℕ) (xs : List ℕ) → drop (m + n) xs ≡ drop n (drop m xs)
drop-drop zero n xs = let e : 0 + n ≡ n = omega arith in rw e refl
drop-drop (suc m) zero [] = let e : suc m + 0 ≡ suc m = omega arith in rw e refl
drop-drop (suc m) (suc n) [] = let e : suc m + suc n ≡ suc (m + suc n) = omega arith in rw e refl
drop-drop (suc m) n (x ∷ xs) =
    let e : suc m + n ≡ suc (m + n) = omega arith in rw e (drop-drop m n xs)

take-append_take : (m n : ℕ) (xs : List ℕ) → take (m + n) xs ≡ take m xs ++ take n (drop m xs)
take-append_take zero n xs = let e : 0 + n ≡ n = omega arith in rw e refl
take-append_take (suc m) zero [] = let e : suc m + 0 ≡ suc m = omega arith in rw e refl
take-append_take (suc m) (suc n) [] =
    let e : suc m + suc n ≡ suc (m + suc n) = omega arith in rw e refl
take-append_take (suc m) n (x ∷ xs) =
    let e : suc m + n ≡ suc (m + n) = omega arith in
    rw e (ap (λ (l : List ℕ). x ∷ l) (take-append_take m n xs))

-- The bytes that one round gathers, and those that are left to gather.
round-take :
    (n : ℕ) (b f : List ℕ)
    → take (min (length b) n) b ++ take (n - min (length b) n) f ≡ take n (b ++ f)
round-take n b f = elim (Bool-cases (ltb n (length b))) [
  | inl h ↦
      let e : min (length b) n ≡ n = ground arith in
      let z : n - n ≡ 0 = omega arith in
      rw (e, z, append-nil) (sym (take_part n b f (ground arith)))
  | inr h ↦
      let e : min (length b) n ≡ length b = ground arith in
      rw (e, take_whole (length b) b (omega arith)) (sym (take_all n b f (ground arith)))
]

copy_from_loop_lem :
    (ss : List Sg) (dst : List ℕ) (len n : ℕ)
    → AllVirt ss
    → len ≡ length dst + n
    → n ≤ length (flat ss)
    → copy_from_loop ss dst len ≡ ret (dst ++ take n (flat ss))
unfolding copy_from_loop
copy_from_loop_lem [] dst len zero v e h =
    let t : (length dst == len) ≡ true = ground arith in rw (t, append-nil) refl
copy_from_loop_lem [] dst len (suc n) v e h = absurd (omega arith)
copy_from_loop_lem (s ∷ ss) dst len zero v e h =
    let t : ltb (length dst) len ≡ false = ground arith in
    let t' : (length dst == len) ≡ true = ground arith in rw (t, t', append-nil) refl
copy_from_loop_lem (s ∷ ss) dst len (suc n) v e h =
    let t : ltb (length dst) len ≡ true = ground arith in
    let d : len - length dst ≡ suc n = omega arith in
    let m = min (length s.bytes) (suc n) in
    let l : length (take m s.bytes) ≡ m = length-take m s.bytes (ground arith) in
    let ih =
      copy_from_loop_lem ss (dst ++ take m s.bytes) len (suc n - m) v.1
        (ground (arith, length-append dst (take m s.bytes)))
        (ground (arith, length-append s.bytes (flat ss))) in
    rw (t, v.0, d)
      (ih
        ∙ ap ret (
            append_assoc dst (take m s.bytes) (take (suc n - m) (flat ss))
            ∙ ap (λ (l : List ℕ). dst ++ l) (round-take (suc n) s.bytes (flat ss))))

-- What one round writes, and the rest.
round-scatter :
    (n : ℕ) (d b f : List ℕ)
    → (take (min (length b) n) d ++ drop (min (length b) n) b)
        ++ (take (n - min (length b) n) (drop (min (length b) n) d)
            ++ drop (n - min (length b) n) f)
      ≡ take n d ++ drop n (b ++ f)
round-scatter n d b f = elim (Bool-cases (ltb n (length b))) [
  | inl h ↦
      let e : min (length b) n ≡ n = ground arith in
      let z : n - n ≡ 0 = omega arith in
      rw (e, z, drop_part n b f (ground arith)) (append_assoc (take n d) (drop n b) f)
  | inr h ↦
      let e : min (length b) n ≡ length b = ground arith in
      let s : n ≡ length b + (n - length b) = ground arith in
      rw (e, drop_whole (length b) b (omega arith), drop_all n b f (ground arith), append-nil)
        (sym (
            append_assoc (take (length b) d) (take (n - length b) (drop (length b) d))
              (drop (n - length b) f))
          ∙ ap (λ (l : List ℕ). l ++ drop (n - length b) f)
              (sym (take-append_take (length b) (n - length b) d)
                ∙ ap (λ (k : ℕ). take k d) (sym s)))
]

copy_to_loop_lem :
    (ss : List Sg) (src : List ℕ) (copied len n : ℕ)
    → AllVirt ss
    → len ≡ copied + n
    → n ≤ length (flat ss)
    → ((copy_to_loop ss src copied len).0 ≡ fine)
      × (flat (copy_to_loop ss src copied len).1 ≡ take n (drop copied src) ++ drop n (flat ss))
unfolding copy_to_loop
copy_to_loop_lem [] src copied len zero v e h =
    let t : (copied == len) ≡ true = ground arith in rw t (refl, refl)
copy_to_loop_lem [] src copied len (suc n) v e h = absurd (omega arith)
copy_to_loop_lem (s ∷ ss) src copied len zero v e h =
    let t : ltb copied len ≡ false = ground arith in
    let t' : (copied == len) ≡ true = ground arith in rw (t, t') (refl, refl)
copy_to_loop_lem (s ∷ ss) src copied len (suc n) v e h =
    let t : ltb copied len ≡ true = ground arith in
    let d : len - copied ≡ suc n = omega arith in
    let m = min (length s.bytes) (suc n) in
    let ih =
      copy_to_loop_lem ss src (copied + m) len (suc n - m) v.1 (ground arith)
        (ground (arith, length-append s.bytes (flat ss))) in
    rw (t, v.0, d)
      (
        ih.0,
        ap (λ (l : List ℕ). (take m (drop copied src) ++ drop m s.bytes) ++ l)
              (ih.1
                ∙ ap (λ (l : List ℕ). take (suc n - m) l ++ drop (suc n - m) (flat ss))
                    (drop-drop copied m src))
            ∙ round-scatter (suc n) (drop copied src) s.bytes (flat ss),
      )

pub sg_copy_from_urb_lem :
    (ss : List Sg) (n : ℕ)
    → AllVirt ss
    → n ≤ length (flat ss)
    → sg_copy_from_urb ss n ≡ ret (take n (flat ss))
unfolding sg_copy_from_urb
sg_copy_from_urb_lem ss n v h = copy_from_loop_lem ss [] n n v (omega arith) h

pub sg_copy_to_urb_lem :
    (ss : List Sg) (src : List ℕ) (n : ℕ)
    → AllVirt ss
    → n ≤ length (flat ss)
    → ((sg_copy_to_urb ss src n).0 ≡ fine)
      × (flat (sg_copy_to_urb ss src n).1 ≡ take n src ++ drop n (flat ss))
unfolding sg_copy_to_urb
sg_copy_to_urb_lem ss src n v h = copy_to_loop_lem ss src 0 n n v (omega arith) h

-- The length of a scatter list that is accepted: every entry has memory, and the sum fits an `int`.
pub record Totalled (ss : List Sg) (total n : ℕ) : Type 0 where
  pub all_virt : AllVirt ss
  pub sum : n ≡ total + length (flat ss)
  pub fits : n ≤ int_max

sg_total_loop-Totalled :
    (ss : List Sg) (total n : ℕ)
    → total ≤ int_max
    → sg_total_loop total ss ≡ ret n
    → Totalled ss total n
unfolding sg_total_loop
sg_total_loop-Totalled [] total n f e =
    let k : total ≡ n = cc in record { all_virt = tt; sum = omega arith; fits = omega arith }
sg_total_loop-Totalled (s ∷ ss) total n f e = elim (Bool-cases s.has_virt) [
  | inr h ↦ let k = rw h at e in absurd (ground arith)
  | inl h ↦ elim (Bool-cases (ltb (int_max - total) (length s.bytes))) [
    | inl g ↦ let k = rw (h, g) at e in absurd (ground arith)
    | inr g ↦
        let t =
          sg_total_loop-Totalled ss (total + length s.bytes) n (ground arith) (rw (h, g) at e) in
        record {
          all_virt = (h, t.all_virt);
          sum = omega (arith, t.sum, length-append s.bytes (flat ss));
          fits = t.fits;
        }
  ]
]

pub sg_total_len-Totalled : (ss : List Sg) (n : ℕ) → sg_total_len ss ≡ ret n → Totalled ss 0 n
unfolding sg_total_len
sg_total_len-Totalled ss n e = sg_total_loop-Totalled ss 0 n (omega arith) e
