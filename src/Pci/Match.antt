-- ===== src/Pci/Match.antt =====
-- `lcompat_pci_match_one` as the search for the first match.
use lcompat.Base.{
  ◌+◌, ◌<◌, ◌≡◌, ◌^◌, refl, true, false, Option, none, some, List, [], ◌∷◌, ◌++◌, arith, ◌==◌,
  if◌then◌else◌, Bool-cases, inl, inr,
}
use lcompat.Pci.{
  PciDeviceId, Native, goes_on, matches, match_loop, match_one, Bar, resource_of, pci_resource_len,
}

-- No identifier of the list ends the table.
abbrev pub AllGoOn : List PciDeviceId → Type 0
AllGoOn [] = Unit {0}
AllGoOn (id ∷ ids) = (goes_on id ≡ true) × AllGoOn ids

-- The first identifier of a list that matches.
unfoldable pub first_match : List PciDeviceId → Native → Option PciDeviceId
first_match [] n = none
first_match (id ∷ ids) n = if matches id n then some id else first_match ids n

-- On a table that a zero identifier ends, `lcompat_pci_match_one` stays inside the table and returns
-- the first identifier before the end that matches the device, or NULL where none does.
pub match_one-first_match :
    (ids rest : List PciDeviceId) (last : PciDeviceId) (n : Native)
    → AllGoOn ids
    → goes_on last ≡ false
    → match_one (some (ids ++ (last ∷ rest))) (some n) ≡ some (first_match ids n)
unfolding match_one match_loop first_match
match_one-first_match [] rest last n a l = rw l refl
match_one-first_match (id ∷ ids) rest last n a l =
    rw (a.0, match_one-first_match ids rest last n a.1 l)
      (elim (Bool-cases (matches id n)) [ inl e ↦ rw e refl | inr e ↦ rw e refl ])

-- Where a register's range fits 64 bits, its resource has the length of the register, but a register
-- without memory gets the length 1.
pub pci_resource_len-resource_of :
    (b : Bar)
    → b.address + b.size < 2 ^ 64
    → pci_resource_len (resource_of b) ≡ (if b.size == 0 then 1 else b.size)
unfolding pci_resource_len resource_of
pci_resource_len-resource_of b h = ground arith
