-- ===== src/Proc/Traversal.antt =====
-- The positions at which a reader of the proc file sees a device: the element of `start`, and then
-- those of `next` until there is none.
use pciedummy_driver.Common.{
  ℕ, zero, suc, ◌+◌, ◌-◌, ◌≤◌, ◌≡◌, refl, inl, inr, Option, none, some, List, [], ◌∷◌, ap, arith,
  Bool-cases, leb,
}
use pciedummy_driver.Proc.{mtcadummy_seq_start, mtcadummy_seq_next}

-- At most `n` elements from the given one on.
pub visited : ℕ → Option ℕ → List ℕ
visited zero e = []
visited (suc n) none = []
visited (suc n) (some pos) = pos ∷ visited n (mtcadummy_seq_next pos).0

pub devices_from : ℕ → ℕ → List ℕ
devices_from zero pos = []
devices_from (suc n) pos = pos ∷ devices_from n (pos + 1)

-- A reader of the proc file that begins at a position and takes at least as many elements as there
-- are devices left sees each device from that position to 6 once, in order, and then the end.
pub visited-devices_from :
    (n pos : ℕ) → 7 ≤ pos + n → visited n (mtcadummy_seq_start pos) ≡ devices_from (7 - pos) pos
unfolding visited devices_from mtcadummy_seq_start mtcadummy_seq_next
visited-devices_from zero pos h = let e : 7 - pos ≡ 0 = omega arith in rw e refl
visited-devices_from (suc n) pos h = elim (Bool-cases (leb 7 pos)) [
  | inl over ↦ let e : 7 - pos ≡ 0 = ground arith in rw (over, e) refl
  | inr inside ↦
      let e : 7 - pos ≡ suc (7 - (pos + 1)) = ground arith in
      rw (inside, e) (ap (λ l. pos ∷ l) (visited-devices_from n (pos + 1) (omega arith)))
]
