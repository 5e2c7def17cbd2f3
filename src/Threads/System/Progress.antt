-- ===== src/Threads/System/Progress.antt =====
-- No deadlock: while a thread has something to do, some thread can go on.
use mathlib.Core.Path.{subst}
use pciedummy_driver.Common.{
  ℕ, zero, suc, ◌<◌, ◌≡◌, ◌≢◌, refl, sym, ◌⊎◌, inl, inr, Bool, true, false, List, [], ◌∷◌, arith,
  ◌==◌, Bool-cases,
}
use pciedummy_driver.Kernel.{
  Lock, control_mutex, dev_mutex, holds, Ssize, Host, Sys, Run, ok, fault, mutex_lock_interruptible,
  mutex_unlock, get_device, put_device, in_bounds, load_word, store_word, copy_from_user,
  copy_to_user,
}
use pciedummy_driver.Kernel.Laws.{Ends}
use pciedummy_driver.Proc.{set_control}
use pciedummy_driver.Threads.{Op, take, check_bound, Answer, Steps, done, perform, act}
use pciedummy_driver.Threads.Discipline.{allowed, is_empty, Guards, AllReleased}
use pciedummy_driver.Threads.System.{Machine, view, IsFree, MayRun, Moves}
use pciedummy_driver.Threads.System.Invariant.{IsSafe, IsIdle, IsIdle-IsSafe, Moves-IsSafe}
use pciedummy_driver.Threads.System.Races.{next_allowed}

-- The thread's next operation can be performed.
pub record CanPerform {M : Type 0} ⦃host : Host M⦄ (v : ℕ) (m : Machine M) (n : ℕ) : Type 0 where
  pub next_op : Op
  pub rest : Answer next_op → Steps M Ssize
  pub answer : Answer next_op
  pub then : Sys M
  pub busy : (m.threads v).steps ≡ perform next_op rest
  pub may_run : MayRun n v next_op m
  pub acts : act next_op (view v m) ≡ ok answer then

-- The thread is about to access memory beyond the DMA array.
pub record Overruns {M : Type 0} (v : ℕ) (m : Machine M) : Type 0 where
  pub rest : Unit {0} → Steps M Ssize
  pub busy : (m.threads v).steps ≡ perform (check_bound false) rest

-- A search among the numbers below `n`.
find : (f : ℕ → Bool) (n : ℕ) → ((u : ℕ) → u < n → f u ≡ false) ⊎ ((u : ℕ) × (u < n) × (f u ≡ true))
find f zero = inl (λ u h. ground (arith, h))
find f (suc n) = elim (find f n) [
  | inr (u, h, e) ↦ inr (u, omega arith, e)
  | inl none_below ↦ elim (Bool-cases (f n)) [
    | inl e ↦ inr (n, omega arith, e)
    | inr e ↦ inl (λ u h. elim (Bool-cases (u == n)) [
      | inl same ↦ ground arith
      | inr other ↦ none_below u (ground arith)
    ])
  ]
]

-- An allowed operation returns, unless it is a failed test of a bound.
module _ {M : Type 0} ⦃host : Host M⦄ where
  act_returns :
      (o : Op) (s : Sys M)
      → allowed s.held o ≡ true
      → o ≢ check_bound false
      → Ends (λ a t. Unit) (act o s)
  unfolding act mutex_lock_interruptible mutex_unlock get_device put_device in_bounds load_word
      store_word copy_from_user copy_to_user set_control
  act_returns (take control_mutex) s may other = ground arith
  act_returns (take (dev_mutex i)) s may other = ground arith
  act_returns o s may other = ground arith

is_overrun : (o : Op) → (o ≢ check_bound false) ⊎ (o ≡ check_bound false)
is_overrun (check_bound false) = inr refl
is_overrun o = inl (ground arith)

returned :
    {M A : Type 0} (r : Run M A) → Ends (λ a t. Unit) r → (a : A) × (t : Sys M) × (r ≡ ok a t)
returned (ok a t) h = (a, t, refl)
returned (fault e) h = elim h [ ]

module _ {M : Type 0} ⦃host : Host M⦄ where
  -- Of the thread `v`, or of one that it waits for.
  abbrev pub GoesOn : ℕ → ℕ → Machine M → Type 0
  GoesOn n v m = (v < n) × (CanPerform v m n ⊎ Overruns v m)

  overruns_lem :
      (v : ℕ) (m : Machine M) (o : Op) (k : Answer o → Steps M Ssize)
      → o ≡ check_bound false
      → (m.threads v).steps ≡ perform o k
      → Overruns v m
  overruns_lem v m o k e =
      subst (λ o. (k : Answer o → Steps M Ssize) → (m.threads v).steps ≡ perform o k → Overruns v m)
        (sym e) (λ k e. record { rest = k; busy = e }) k

  goes_on :
      (n v : ℕ) (m : Machine M) (o : Op) (k : Answer o → Steps M Ssize)
      → v < n
      → IsSafe n m
      → (m.threads v).steps ≡ perform o k
      → MayRun n v o m
      → GoesOn n v m
  goes_on n v m o k hv safe e run = elim (is_overrun o) [
    | inr overruns ↦ (hv, inr (overruns_lem v m o k overruns e))
    | inl other ↦
        let (a, t, acts) =
          returned (act o (view v m))
            (act_returns o (view v m) (next_allowed n v m o k hv safe e) other) in
        (
          hv,
          inl (record {
            next_op = o;
            rest = k;
            answer = a;
            then = t;
            busy = e;
            may_run = run;
            acts = acts;
          }),
        )
  ]

  holder_search :
      (n t : ℕ) (l : Lock) (m : Machine M)
      → IsFree n t l m ⊎ ((u : ℕ) × (u < n) × (holds l (m.threads u).held ≡ true))
  holder_search n t l m = elim (find (λ u. holds l (m.threads u).held) n) [
    | inl free ↦ inl (λ u hu apart. free u hu)
    | inr held ↦ inr held
  ]

  -- A thread that holds a mutex has something to do, which the discipline allows.
  holder_busy :
      (n v : ℕ) (m : Machine M) (l : Lock) (p : Steps M Ssize)
      → (m.threads v).steps ≡ p
      → Guards AllReleased (m.threads v).held p
      → holds l (m.threads v).held ≡ true
      → (o : Op) × (k : Answer o → Steps M Ssize) × ((m.threads v).steps ≡ perform o k)
  unfolding Guards
  holder_busy n v m l (done r) e g held = let none_held : ⊥ = ground arith in elim none_held [ ]
  holder_busy n v m l (perform o k) e g held = (o, k, e)

holds-is_empty : (l : Lock) (h : List Lock) → holds l h ≡ true → is_empty h ≡ false
holds-is_empty l [] e = ground arith
holds-is_empty l (k ∷ h) e = refl

module _ {M : Type 0} ⦃host : Host M⦄ (n : ℕ) (m : Machine M) (safe : IsSafe n m) where
  -- A thread that holds the mutex of the control data does not wait.
  inside_control :
      (v : ℕ) (o : Op) (k : Answer o → Steps M Ssize)
      → v < n
      → (m.threads v).steps ≡ perform o k
      → holds control_mutex (m.threads v).held ≡ true
      → GoesOn n v m
  inside_control v (take control_mutex) k hv e held =
      let absurd : ⊥ = ground (arith, next_allowed n v m (take control_mutex) k hv safe e) in
      elim absurd [ ]
  inside_control v (take (dev_mutex i)) k hv e held =
      let absurd : ⊥ = ground (
        arith,
        next_allowed n v m (take (dev_mutex i)) k hv safe e,
        holds-is_empty control_mutex (m.threads v).held held,
      ) in
      elim absurd [ ]
  inside_control v o k hv e held = goes_on n v m o k hv safe e tt

  waits_for_control :
      (v : ℕ) (k : Bool → Steps M Ssize)
      → v < n
      → (m.threads v).steps ≡ perform (take control_mutex) k
      → (u : ℕ) × GoesOn n u m
  waits_for_control v k hv e = elim (holder_search n v control_mutex m) [
    | inl free ↦ (v, goes_on n v m (take control_mutex) k hv safe e (inr free))
    | inr (u, hu, held) ↦
        let (o, j, e') =
          holder_busy n u m control_mutex (m.threads u).steps refl (safe.guarded u hu) held in
        (u, inside_control u o j hu e' held)
  ]

  -- One that holds the mutex of a device waits at most for that of the control data.
  inside_device :
      (i v : ℕ) (o : Op) (k : Answer o → Steps M Ssize)
      → v < n
      → (m.threads v).steps ≡ perform o k
      → holds (dev_mutex i) (m.threads v).held ≡ true
      → (u : ℕ) × GoesOn n u m
  inside_device i v (take control_mutex) k hv e held = waits_for_control v k hv e
  inside_device i v (take (dev_mutex j)) k hv e held =
      let absurd : ⊥ = ground (
        arith,
        next_allowed n v m (take (dev_mutex j)) k hv safe e,
        holds-is_empty (dev_mutex i) (m.threads v).held held,
      ) in
      elim absurd [ ]
  inside_device i v o k hv e held = (v, goes_on n v m o k hv safe e tt)

  waits_for_device :
      (i v : ℕ) (k : Bool → Steps M Ssize)
      → v < n
      → (m.threads v).steps ≡ perform (take (dev_mutex i)) k
      → (u : ℕ) × GoesOn n u m
  waits_for_device i v k hv e = elim (holder_search n v (dev_mutex i) m) [
    | inl free ↦ (v, goes_on n v m (take (dev_mutex i)) k hv safe e (inr free))
    | inr (u, hu, held) ↦
        let (o, j, e') =
          holder_busy n u m (dev_mutex i) (m.threads u).steps refl (safe.guarded u hu) held in
        inside_device i u o j hu e' held
  ]

  IsSafe-GoesOn :
      (v : ℕ) (o : Op) (k : Answer o → Steps M Ssize)
      → v < n
      → (m.threads v).steps ≡ perform o k
      → (u : ℕ) × GoesOn n u m
  IsSafe-GoesOn v (take control_mutex) k hv e = waits_for_control v k hv e
  IsSafe-GoesOn v (take (dev_mutex i)) k hv e = waits_for_device i v k hv e
  IsSafe-GoesOn v o k hv e = (v, goes_on n v m o k hv safe e tt)

module _ {M : Type 0} ⦃host : Host M⦄ where
  -- In every machine that n idle threads reach, which hold nothing and whose devices have their
  -- slot numbers and 32-bit words, if one of them has an operation left, then one of the n can
  -- perform its next operation, or is at a failed test of an array's bound.
  pub no_deadlock :
      (n t : ℕ) {m w : Machine M} (o : Op) (k : Answer o → Steps M Ssize)
      → IsIdle n m
      → Moves n (λ u. Unit) m w
      → t < n
      → (w.threads t).steps ≡ perform o k
      → (v : ℕ) × GoesOn n v w
  no_deadlock n t {m} {w} o k start moves ht e =
      IsSafe-GoesOn n w (Moves-IsSafe n (λ u. Unit) moves (IsIdle-IsSafe n m start)) t o k ht e
