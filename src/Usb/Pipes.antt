-- ===== src/Usb/Pipes.antt =====
-- The numbers of pipes, and what is read back from them.
use lcompat.Base.{
  ℕ, zero, suc, ◌+◌, ◌<◌, ◌≡◌, refl, Bool, true, false, ◌&&◌, arith, ◌==◌, Bool-cases, inl, inr,
  ==_iff, if◌then◌else◌,
}
use lcompat.Usb.{usb_pipe, pipe_ep, pipe_type, pipe_dir_in}
use lcompat.Usb.Descriptors.{wanted_address}

same_bool : Bool → Bool → Bool
same_bool true b = b
same_bool false true = false
same_bool false false = true

same_bool-eq : (a b : Bool) → same_bool a b ≡ true → a ≡ b
unfolding same_bool
same_bool-eq true true h = refl
same_bool-eq true false h = absurd (ground arith)
same_bool-eq false true h = absurd (ground arith)
same_bool-eq false false h = refl

-- The test of one endpoint, direction and type.
reads_back : (ep type : ℕ) (dir : Bool) → Bool
reads_back ep type dir =
    let p = usb_pipe ep dir type in
    pipe_type p == type
    && same_bool (pipe_dir_in p) dir
    && wanted_address p == ep + (if dir then 128 else 0)

-- The test for every number below a bound, from the bound downwards.
passes : (test : ℕ → Bool) → (bound : ℕ) → Bool
passes test zero = true
passes test (suc k) = if test k then passes test k else false

passes-at : (test : ℕ → Bool) (bound i : ℕ) → i < bound → passes test bound ≡ true → test i ≡ true
unfolding passes
passes-at test zero i l e = absurd (omega arith)
passes-at test (suc k) i l e = elim (Bool-cases (test k)) [
  | inr t ↦ let k' = rw t at e in absurd (ground arith)
  | inl t ↦ elim (Bool-cases (i == k)) [
    | inl q ↦ let q' : i ≡ k = ground arith in rw q' t
    | inr q ↦ passes-at test k i (ground arith) (rw t at e)
  ]
]

table :
    passes (λ type. passes (λ ep. reads_back ep type true && reads_back ep type false) 16) 3 ≡ true
unfolding passes reads_back usb_pipe pipe_type pipe_dir_in pipe_ep wanted_address same_bool
table = refl

both : (a b c : Bool) → (a && b && c) ≡ true → (a ≡ true) × (b ≡ true) × (c ≡ true)
both true b c h = (refl, ground arith, ground arith)
both false b c h = absurd (ground arith)

at_dir :
    (ep type : ℕ) (dir : Bool)
    → (reads_back ep type true && reads_back ep type false) ≡ true
    → reads_back ep type dir ≡ true
at_dir ep type true h = ground (arith, h)
at_dir ep type false h = ground (arith, h)

-- From the number of a pipe for one of the 16 endpoints, a direction and one of the three types, the code
-- reads back the type, the direction, and the address of the endpoint's descriptor.
pub usb_pipe_reads_back :
    (ep type : ℕ) (dir : Bool)
    → ep < 16
    → type < 3
    → (pipe_type (usb_pipe ep dir type) ≡ type)
      × (pipe_dir_in (usb_pipe ep dir type) ≡ dir)
      × (wanted_address (usb_pipe ep dir type) ≡ ep + (if dir then 128 else 0))
unfolding reads_back
usb_pipe_reads_back ep type dir le lt =
    let row = passes-at _ 3 type lt table in
    let cell = passes-at _ 16 ep le row in
    let (a, b, c) = both _ _ _ (at_dir ep type dir cell) in
    ((==_iff _ type).0 a, same_bool-eq _ dir b, (==_iff _ _).0 c)
