-- ===== src/Usb/Sg.antt =====
-- The scatter lists of URBs: `lcompat_usb_sg_total_len`, `lcompat_usb_sg_copy_from_urb` and
-- `lcompat_usb_sg_copy_to_urb`. The list is empty where `sg` is NULL or `num_sgs` is not positive.
pub mod Copies
use lcompat.Base.{
  ℕ, ◌+◌, ◌-◌, Bool, not, List, [], ◌∷◌, ◌++◌, einval, eoverflow, min, length, take, drop, ltb,
  ◌==◌, if◌then◌else◌,
}
use lcompat.Base.Words.{int_max}
use lcompat.Usb.{Status, fine, error, Outcome, ret, bad}

-- One entry: whether `sg_virt` is not NULL, and the bytes there, as many as its `length`.
pub record Sg : Type 0 where
  pub has_virt : Bool
  pub bytes : List ℕ

unfoldable pub sg_total_loop : (total : ℕ) → List Sg → Outcome ℕ
sg_total_loop total [] = ret total
sg_total_loop total (s ∷ ss) =
    let rest = sg_total_loop (total + length s.bytes) ss in
    if not s.has_virt
    then bad (error einval)
    else if ltb (int_max - total) (length s.bytes)
    then bad (error eoverflow)
    else rest

unfoldable pub sg_total_len : List Sg → Outcome ℕ
unfolding sg_total_loop
sg_total_len ss = sg_total_loop 0 ss

-- The loop of the gathering copy with what stands in `dst` so far, and the test behind it.
unfoldable pub copy_from_loop : List Sg → (dst : List ℕ) → (len : ℕ) → Outcome (List ℕ)
copy_from_loop [] dst len = if length dst == len then ret dst else bad (error einval)
copy_from_loop (s ∷ ss) dst len =
    let rest =
      copy_from_loop ss (dst ++ take (min (length s.bytes) (len - length dst)) s.bytes) len in
    if ltb (length dst) len
    then (if s.has_virt then rest else bad (error einval))
    else if length dst == len
    then ret dst
    else bad (error einval)

unfoldable pub sg_copy_from_urb : List Sg → (len : ℕ) → Outcome (List ℕ)
unfolding copy_from_loop
sg_copy_from_urb ss len = copy_from_loop ss [] len

-- The loop of the scattering copy, with the status and the entries behind it.
unfoldable pub copy_to_loop : List Sg → (src : List ℕ) → (copied len : ℕ) → Status × List Sg
copy_to_loop [] src copied len = (if copied == len then fine else error einval, [])
copy_to_loop (s ∷ ss) src copied len =
    let n = min (length s.bytes) (len - copied) in
    let rest = copy_to_loop ss src (copied + n) len in
    if ltb copied len
    then if s.has_virt
      then (rest.0, record s { bytes = take n (drop copied src) ++ drop n s.bytes } ∷ rest.1)
      else (error einval, s ∷ ss)
    else (if copied == len then fine else error einval, s ∷ ss)

unfoldable pub sg_copy_to_urb : List Sg → (src : List ℕ) → (len : ℕ) → Status × List Sg
unfolding copy_to_loop
sg_copy_to_urb ss src len = copy_to_loop ss src 0 len
