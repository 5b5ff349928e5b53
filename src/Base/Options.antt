-- ===== src/Base/Options.antt =====
-- Fallible results: `none` is a fault, such as an access through a dangling pointer.
use Prim.Native.Nat.{ℕ}
use mathlib.Core.Path.{◌≡◌, refl}
use mathlib.Core.Logic.{◌⊎◌, inl, inr}
use mathlib.Core.Option.{Option, none, some}

infixl 5 ◌>>=◌ ◌>>◌
abbrev pub ◌>>=◌ {ℓ κ} : {A : Type ℓ} {B : Type κ} → Option A → (A → Option B) → Option B
none >>= f = none
some a >>= f = f a

abbrev pub ◌>>◌ {ℓ κ} : {A : Type ℓ} {B : Type κ} → Option A → Option B → Option B
m >> k = m >>= λ _. k

pub Option-cases {ℓ} : {A : Type ℓ} (o : Option A) → (o ≡ none) ⊎ ((a : A) × (o ≡ some a))
Option-cases none = inl refl
Option-cases (some a) = inr (a, refl)

-- The error numbers that the modelled functions return, negated in C; `failed` is a literal -1.
pub data Errno : Type 0 where
  einval enomem enospc enodev eopnotsupp enoent ebusy enotconn eoverflow eagain emsgsize : Errno
  epipe etimedout eproto eio einprogress failed : Errno

-- An `int` that is negative exactly on an error.
pub data Ret {ℓ} (A : Type ℓ) : Type ℓ where
  ok : A → Ret A
  err : Errno → Ret A

-- A C `int`; `negsuc n` is -(n + 1).
pub data ℤ : Type 0 where
  pos : ℕ → ℤ
  negsuc : ℕ → ℤ
