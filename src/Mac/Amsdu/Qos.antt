-- ===== src/Mac/Amsdu/Qos.antt =====
-- Where `lcompat_ieee80211_is_amsdu` looks for the QoS field.
use lcompat.Base.{
  ℕ, ◌≤◌, ◌≡◌, refl, true, false, ◌&&◌, List, arith, ltb, if◌then◌else◌, Bool-cases, inl, inr,
  length, get_or,
}
use lcompat.Mac.Bytes.{bit_set}
use lcompat.Mac.FrameControl.{has_tods, has_fromds, has_order, is_data_qos, data_hdr_len}
use lcompat.Mac.Amsdu.{is_amsdu}

-- The QoS field of a frame with three addresses is at byte 24. `lcompat_ieee80211_is_amsdu` reads the bit
-- for an A-MSDU there; but in a frame with an HT control field, which follows the QoS field, it reads bit
-- 7 of byte 28, inside that field.
pub is_amsdu_reads_at :
    (frame : List ℕ) (fc : ℕ)
    → is_data_qos fc ≡ true
    → (has_tods fc && has_fromds fc) ≡ false
    → data_hdr_len fc ≤ length frame
    → is_amsdu frame (data_hdr_len fc)
      ≡ bit_set 7 (get_or frame (if has_order fc then 28 else 24) 0)
unfolding is_amsdu data_hdr_len
is_amsdu_reads_at frame fc q a l = elim (Bool-cases (has_order fc)) [
  | inl o ↦
      let h : 30 ≤ length frame = rw (q, a, o) at l in
      let t : ltb (length frame) 30 ≡ false = ground arith in rw (q, a, o, t) refl
  | inr o ↦
      let h : 26 ≤ length frame = rw (q, a, o) at l in
      let t : ltb (length frame) 26 ≡ false = ground arith in rw (q, a, o, t) refl
]
