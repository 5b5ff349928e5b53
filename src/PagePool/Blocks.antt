-- ===== src/PagePool/Blocks.antt =====
-- `__dev_alloc_pages`: the block that an order gets.
use lcompat.Base.{
  ℕ, zero, suc, ◌-◌, ◌*◌, ◌%◌, ◌^◌, ◌<◌, ◌≡◌, ◌≢◌, refl, Bool, true, false, arith, Bool-cases, inl,
  inr, ◌==◌, ltb, leb, if◌then◌else◌, ==_iff, [], ◌∷◌, ◌++◌,
}
use lcompat.Base.Words.{u64_mod, ulong_max}
use lcompat.PagePool.{Pages, Grant, page_size, sizeof_page, new_page, page_alloc, dev_alloc_pages}

-- Whether a test passes for every order below a bound, so that a table decides it.
passes : (ℕ → Bool) → ℕ → Bool
passes test zero = true
passes test (suc m) = if test m then passes test m else false

passes_below :
    (test : ℕ → Bool) (bound order : ℕ)
    → order < bound
    → passes test bound ≡ true
    → test order ≡ true
unfolding passes
passes_below test zero order below table = absurd (omega arith)
passes_below test (suc m) order below table = elim (Bool-cases (test m)) [
  | inl yes_m ↦ ground (arith, passes_below test m order)
  | inr no_m ↦ ground arith
]

-- What `size <<= order` leaves of the size.
abbrev pub shifted : ℕ → ℕ
shifted order = (page_size * 2 ^ order) % u64_mod

-- The size that the block of an order really has.
abbrev pub block_size : ℕ → ℕ
block_size order = if ltb order 52 then page_size * 2 ^ order else page_size

abbrev sizes_agree : ℕ → Bool
sizes_agree order = (if shifted order == 0 then page_size else shifted order) == block_size order

sizes_table : passes sizes_agree 64 ≡ true
unfolding passes
sizes_table = refl

shifted-block_size :
    (order : ℕ)
    → order < 64
    → (if shifted order == 0 then page_size else shifted order) ≡ block_size order
shifted-block_size order h = (==_iff _ _).0 (passes_below sizes_agree 64 order h sizes_table)

abbrev small_enough : ℕ → Bool
small_enough order = leb (block_size order) (ulong_max - sizeof_page)

small_table : passes small_enough 64 ≡ true
unfolding passes
small_table = refl

-- With a page structure at hand, an order below 52 gets its 4096 * 2 ^ order bytes. From order 52 to
-- 63 the shift has lost every bit, and the caller gets a single page for the block it asked for.
pub dev_alloc_pages_block :
    (g : Grant) (order : ℕ) (k : Pages)
    → order < 64
    → g.page ≢ 0
    → dev_alloc_pages g order k
      ≡ (g.page, record k { live = k.live ++ (new_page g 0 (block_size order) ∷ []) })
unfolding dev_alloc_pages page_alloc
dev_alloc_pages_block g order k h nz =
    let e = shifted-block_size order h in
    let s = passes_below small_enough 64 order h small_table in
    let t1 : leb 64 order ≡ false = ground arith in
    let t2 : (g.page == 0) ≡ false = ground arith in
    let t3 : ltb (ulong_max - sizeof_page) (block_size order) ≡ false = ground arith in
    rw (t1, e, t2, t3)
