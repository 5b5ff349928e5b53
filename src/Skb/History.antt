-- ===== src/Skb/History.antt =====
-- Any sequence of linear operations on a buffer without fragments.
use lcompat.Base.{ℕ, ◌≡◌, Option, none, some, List, [], ◌∷◌, arith, leb, inl, inr, Bool-cases}
use lcompat.Skb.{SkBuff}
use lcompat.Skb.Linear.{skb_put, skb_reserve, skb_push, skb_pull, skb_reset_tail_pointer}
use lcompat.Skb.Bounds.{IsValid, skb_put_lem, skb_push_lem, skb_pull_lem, skb_reserve_lem}

pub data Op : Type 0 where
  put reserve push pull : ℕ → Op
  reset : Op

unfoldable pub step : Op → Option SkBuff → Option SkBuff
step (put n) s = (skb_put s n).0
step (reserve n) s = skb_reserve s n
step (push n) s = (skb_push s n).0
step (pull n) s = (skb_pull s n).0
step reset s = skb_reset_tail_pointer s

unfoldable pub run : List Op → Option SkBuff → Option SkBuff
run [] s = s
run (op ∷ ops) s = run ops (step op s)

-- A valid buffer over the same memory, with all its bytes linear.
pub record Linear (head end : ℕ) (s : SkBuff) : Type 0 where
  pub valid : IsValid s
  pub no_frags : s.data_len ≡ 0
  pub head_kept : s.head ≡ head
  pub end_kept : s.end ≡ end

abbrev pub IsLinear : (head end : ℕ) → Option SkBuff → Type 0
IsLinear head end none = ⊥
IsLinear head end (some s) = Linear head end s

step-IsLinear :
    (head end : ℕ) (op : Op) (s : SkBuff) → Linear head end s → IsLinear head end (step op (some s))
unfolding step skb_reset_tail_pointer
step-IsLinear head end (put n) s l = ground (arith, skb_put_lem s n l.valid)
step-IsLinear head end (reserve n) s l = ground (arith, skb_reserve_lem s n l.valid)
step-IsLinear head end (push n) s l = ground (arith, skb_push_lem s n l.valid)
step-IsLinear head end (pull n) s l = elim (Bool-cases (leb n s.len)) [
  | inl e ↦ rw (skb_pull_lem s n l.valid, e, step, IsLinear) (ground arith)
  | inr e ↦ rw (skb_pull_lem s n l.valid, e, step, IsLinear) l
]
step-IsLinear head end reset s l = ground arith

-- From a buffer without fragments whose bounds are in order, no sequence of these calls, of whatever
-- sizes, takes the buffer out of its bounds, loses it, or moves its memory.
pub run-IsLinear :
    (head end : ℕ) (ops : List Op) (s : Option SkBuff)
    → IsLinear head end s
    → IsLinear head end (run ops s)
unfolding run
run-IsLinear head end [] s l = l
run-IsLinear head end (op ∷ ops) none l = absurd l
run-IsLinear head end (op ∷ ops) (some s) l =
    run-IsLinear head end ops (step op (some s)) (step-IsLinear head end op s l)
