-- ===== src/Threads/System/Races.antt =====
-- Shared data is accessed by one thread at a time, and stays as it is while a thread holds its mutex.
use mathlib.Core.Path.{subst}
use pciedummy_driver.Common.{ℕ, ◌<◌, ◌≡◌, refl, sym, ◌∙◌, true, false, List, arith, ◌==◌}
use pciedummy_driver.Kernel.{Lock, holds, Ssize, Host, Sys}
use pciedummy_driver.Driver.Invariants.{at_return}
use pciedummy_driver.Threads.{Op, Answer, Steps, perform, act}
use pciedummy_driver.Threads.Discipline.{allowed, Guards, AllReleased}
use pciedummy_driver.Threads.Acts.{
  Place, control_data, bars_of, accesses, mutex_of, SameData, Acted, act-Acted,
}
use pciedummy_driver.Threads.System.{
  Machine, view, leave, Move, performs, begins, disturbed, Moves, here, next,
}
use pciedummy_driver.Threads.System.Invariant.{IsSafe, IsIdle, IsIdle-IsSafe, Moves-IsSafe}

-- An allowed access is made by a thread that holds the mutex of the place.
accesses-holds :
    (o : Op) (x : Place) (h : List Lock)
    → allowed h o ≡ true
    → accesses o x ≡ true
    → holds (mutex_of x) h ≡ true
accesses-holds o control_data h may e = ground arith
accesses-holds o (bars_of i) h may e = ground arith

module _ {M : Type 0} where
  pub next_allowed :
      (n t : ℕ) (m : Machine M) (o : Op) (k : Answer o → Steps M Ssize)
      → t < n
      → IsSafe n m
      → (m.threads t).steps ≡ perform o k
      → allowed (m.threads t).held o ≡ true
  unfolding Guards
  next_allowed n t m o k ht safe e =
      (subst (Guards AllReleased (m.threads t).held) e (safe.guarded t ht)).0

module _ {M : Type 0} ⦃host : Host M⦄ where
  -- From threads that are idle and hold nothing, with devices that have their slot numbers and
  -- 32-bit words, any number of steps of any of n threads, which open, release, read, write, call
  -- ioctl and use the proc file with valid arguments, leads to machines in which no two threads are
  -- both about to access the control data, or both about to access the bars of one device.
  pub no_data_race :
      (n : ℕ) {m w : Machine M} (t u : ℕ) (o p : Op) (k : Answer o → Steps M Ssize)
      (j : Answer p → Steps M Ssize) (x : Place)
      → IsIdle n m
      → Moves n (λ v. Unit) m w
      → t < n
      → u < n
      → (u == t) ≡ false
      → (w.threads t).steps ≡ perform o k
      → (w.threads u).steps ≡ perform p j
      → accesses o x ≡ true
      → accesses p x ≡ false
  no_data_race n {m} {w} t u o p k j x start moves ht hu apart e e' touched =
      let safe = Moves-IsSafe n (λ v. Unit) moves (IsIdle-IsSafe n m start) in
      let mine = accesses-holds o x (w.threads t).held (next_allowed n t w o k ht safe e) touched in
      let other = accesses-holds p x (w.threads u).held (next_allowed n u w p j hu safe e') in
      ground (arith, mine, other, safe.exclusive t u (mutex_of x) ht hu apart)

  leave_stable :
      (t u : ℕ) (m : Machine M) (p : Steps M Ssize) (s : Sys M) (x : Place)
      → (u == t) ≡ false
      → SameData x (view u m) s
      → SameData x (view t m) (view t (leave u p s m)) × ((leave u p s m).threads t ≡ m.threads t)
  leave_stable t u m p s control_data apart same = (same, rw apart refl)
  leave_stable t u m p s (bars_of i) apart same = (same, rw apart refl)

  SameData-refl :
      (x : Place) (s t : Sys M) → s.control ≡ t.control → s.devices ≡ t.devices → SameData x s t
  SameData-refl control_data s t e e' = sym e
  SameData-refl (bars_of i) s t e e' = (rw e' refl, rw e' refl)

  Move-stable :
      (n t u : ℕ) {m w : Machine M} (x : Place)
      → t < n
      → (u == t) ≡ false
      → IsSafe n m
      → holds (mutex_of x) (m.threads t).held ≡ true
      → Move n u m w
      → SameData x (view t m) (view t w) × (w.threads t ≡ m.threads t)
  Move-stable n t u x ht apart safe mine (performs m o k a s hu e run acted) =
      let touches = accesses-holds o x (m.threads u).held (next_allowed n u m o k hu safe e) in
      let untouched : accesses o x ≡ false =
        ground (arith, mine, touches, safe.exclusive t u (mutex_of x) ht hu apart) in
      leave_stable t u m (k a) s x apart (
        (at_return (λ a s. Acted o a (view u m) s) (act o (view u m)) a s acted
            (act-Acted o (view u m))).same
          x (rw untouched refl))
  Move-stable n t u x ht apart safe mine (begins m r p hu e starts) =
      leave_stable t u m p (view u m) x apart (SameData-refl x (view u m) (view u m) refl refl)
  Move-stable n t u x ht apart safe mine (disturbed m y arriving hu) =
      leave_stable t u m (m.threads u).steps (record (view u m) { user = y; signals = arriving }) x
        apart
        (SameData-refl x (view u m) (record (view u m) { user = y; signals = arriving }) refl refl)

  SameData-trans : (x : Place) (r s t : Sys M) → SameData x r s → SameData x s t → SameData x r t
  SameData-trans control_data r s t a b = b ∙ a
  SameData-trans (bars_of i) r s t a b = (b.0 ∙ a.0, b.1 ∙ a.1)

  others_stable :
      (n t : ℕ) {v w : Machine M} (x : Place)
      → t < n
      → IsSafe n v
      → holds (mutex_of x) (v.threads t).held ≡ true
      → Moves n (λ u. (u == t) ≡ false) v w
      → SameData x (view t v) (view t w) × (w.threads t ≡ v.threads t)
  others_stable n t {v} x ht safe mine here =
      (SameData-refl x (view t v) (view t v) refl refl, refl)
  others_stable n t {v} x ht safe mine (next {v = r} {w = w} u apart moves move) =
      let (same, own) = others_stable n t x ht safe mine moves in
      let (same', own') =
        Move-stable n t u x ht apart (Moves-IsSafe n (λ u. (u == t) ≡ false) moves safe)
          (rw own mine) move in
      (SameData-trans x (view t v) (view t r) (view t w) same same', own' ∙ own)

  -- In every machine that n idle threads reach, which hold nothing and whose devices have their
  -- slot numbers and 32-bit words, while one of them holds the mutex of the control data or of a
  -- device, any number of steps of the others leaves that data, or that device's bars, and the
  -- thread itself as they are.
  pub section_is_stable :
      (n t : ℕ) {m v w : Machine M} (x : Place)
      → IsIdle n m
      → Moves n (λ u. Unit) m v
      → t < n
      → holds (mutex_of x) (v.threads t).held ≡ true
      → Moves n (λ u. (u == t) ≡ false) v w
      → SameData x (view t v) (view t w) × (w.threads t ≡ v.threads t)
  section_is_stable n t x start moves ht mine others =
      others_stable n t x ht (Moves-IsSafe n (λ u. Unit) moves (IsIdle-IsSafe n _ start)) mine
        others
