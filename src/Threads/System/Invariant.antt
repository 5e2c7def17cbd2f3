-- ===== src/Threads/System/Invariant.antt =====
-- What holds of all machines that the threads reach.
use mathlib.Core.Path.{subst}
use pciedummy_driver.Common.{
  ℕ, ◌<◌, ◌≡◌, refl, sym, ◌∙◌, inl, inr, true, false, List, [], ◌∷◌, arith, ◌==◌, Bool-cases,
}
use pciedummy_driver.State.{mtcadummy_nr_devs, HasWords}
use pciedummy_driver.Kernel.{
  Lock, control_mutex, dev_mutex, same_lock, holds, release, Ssize, Host, Sys,
}
use pciedummy_driver.Driver.Invariants.{at_return}
use pciedummy_driver.Threads.{Op, take, give, Answer, Steps, done, perform, act}
use pciedummy_driver.Threads.Discipline.{after, Sound, Guards, Guards-bind, AllReleased}
use pciedummy_driver.Threads.Guarded.{Guards-done}
use pciedummy_driver.Threads.Guarded.Files.{
  HandlerGuards, mtca_dummy_open-Guards, mtca_dummy_release-Guards, steps_of-Guards,
}
use pciedummy_driver.Threads.Files.{mtca_dummy_open_steps}
use pciedummy_driver.Threads.Acts.{Woken, Acted, act-Acted, AllWords, act-AllWords}
use pciedummy_driver.Threads.System.{
  Machine, view, leave, MayRun, Starts, calls, opens, closes, Move, performs, begins, disturbed,
  Moves, here, next,
}

-- Each of the `n` threads keeps to the discipline with what it has still to do, no mutex is held
-- by two of them, and each device has its number.
pub record IsSafe {M : Type 0} (n : ℕ) (m : Machine M) : Type 0 where
  pub guarded : (t : ℕ) → t < n → Guards AllReleased (m.threads t).held (m.threads t).steps
  pub exclusive :
      (t u : ℕ) (l : Lock)
      → t < n
      → u < n
      → (u == t) ≡ false
      → holds l (m.threads t).held ≡ true
      → holds l (m.threads u).held ≡ false
  pub slots : (j : ℕ) → j < mtcadummy_nr_devs → (m.devices j).slot_nr ≡ j
  pub words : (j : ℕ) → j < mtcadummy_nr_devs → HasWords (m.devices j)

same_lock_eq : (l k : Lock) → same_lock l k ≡ true → l ≡ k
same_lock_eq control_mutex control_mutex h = refl
same_lock_eq control_mutex (dev_mutex j) h = ground arith
same_lock_eq (dev_mutex i) control_mutex h = ground arith
same_lock_eq (dev_mutex i) (dev_mutex j) h = ground arith

holds-release : (l k : Lock) (h : List Lock) → holds l (release k h) ≡ true → holds l h ≡ true
holds-release l k [] e = e
holds-release l k (j ∷ h) e = ground (arith, holds-release l k h)

module _ {M : Type 0} where
  -- A mutex held after an operation was held before, or no other thread held it.
  holds-after :
      (n t : ℕ) (m : Machine M) (o : Op) (a : Answer o) (l : Lock) (u : ℕ)
      → MayRun n t o m
      → Woken o a (view t m)
      → u < n
      → (u == t) ≡ false
      → holds l (after o a (m.threads t).held) ≡ true
      → holds l (m.threads t).held ≡ false
      → holds l (m.threads u).held ≡ false
  holds-after n t m (take k) true l u run woken hu apart e e' = ground arith
  holds-after n t m (take k) false l u (inl signal) woken hu apart e e' = ground arith
  holds-after n t m (take k) false l u (inr free) woken hu apart e e' =
      let same : same_lock l k ≡ true = ground arith in rw (same_lock_eq l k same) (free u hu apart)
  holds-after n t m (give k) a l u run woken hu apart e e' =
      ground (arith, holds-release l k (m.threads t).held e)
  holds-after n t m o a l u run woken hu apart e e' = ground arith

  leave-IsSafe :
      (n t : ℕ) (m : Machine M) (p : Steps M Ssize) (s : Sys M)
      → t < n
      → IsSafe n m
      → Guards AllReleased s.held p
      → ((l : Lock) (u : ℕ)
          → u < n
          → (u == t) ≡ false
          → holds l s.held ≡ true
          → holds l (m.threads t).held ≡ false
          → holds l (m.threads u).held ≡ false)
      → ((j : ℕ) → (s.devices j).slot_nr ≡ (m.devices j).slot_nr)
      → ((j : ℕ) → j < mtcadummy_nr_devs → HasWords (s.devices j))
      → IsSafe n (leave t p s m)
  leave-IsSafe n t m p s ht safe g grows same words = record {
    guarded = λ u hu. elim (Bool-cases (t == u)) [
      | inl own ↦ rw own g
      | inr other ↦ rw other (safe.guarded u hu)
    ];
    exclusive = λ u v l hu hv apart e. ground (
      arith,
      grows l u,
      grows l v,
      safe.exclusive u v l,
      safe.exclusive t v l,
      safe.exclusive t u l,
    );
    slots = λ j hj. same j ∙ safe.slots j hj;
    words = words;
  }

module _ {M : Type 0} ⦃host : Host M⦄ where
  Starts-Guards : (p : Steps M Ssize) → Starts p → Guards AllReleased [] p
  Starts-Guards _ (calls c p valid e) = subst HandlerGuards e (steps_of-Guards M c valid)
  Starts-Guards p (opens i hi) =
      Guards-bind AllReleased AllReleased [] (mtca_dummy_open_steps i) _
        (mtca_dummy_open-Guards M i hi) λ r h e. Guards-done M AllReleased h r.0 e
  Starts-Guards p (closes i hi) = mtca_dummy_release-Guards M i hi

  performs-IsSafe :
      (n t : ℕ) (m : Machine M) (o : Op) (k : Answer o → Steps M Ssize) (a : Answer o) (s : Sys M)
      → t < n
      → (m.threads t).steps ≡ perform o k
      → MayRun n t o m
      → Acted o a (view t m) s
      → (Sound o → AllWords (view t m) → AllWords s)
      → IsSafe n m
      → IsSafe n (leave t (k a) s m)
  unfolding Guards
  performs-IsSafe n t m o k a s ht e run acted words safe =
      let now : Guards AllReleased (m.threads t).held (perform o k) =
        subst (Guards AllReleased (m.threads t).held) e (safe.guarded t ht) in
      leave-IsSafe n t m (k a) s ht safe
        (subst (λ h. Guards AllReleased h (k a)) (sym acted.held)
          (now.2 a (acted.possible safe.slots safe.words)))
        (λ l u hu apart here e'.
          holds-after n t m o a l u run acted.woken hu apart
            (subst (λ h. holds l h ≡ true) acted.held here) e')
        acted.slots (words now.1 safe.words)

  idle-released :
      (n t : ℕ) (m : Machine M) (r : Ssize)
      → t < n
      → (m.threads t).steps ≡ done r
      → IsSafe n m
      → (m.threads t).held ≡ []
  unfolding Guards
  idle-released n t m r ht e safe =
      subst (Guards AllReleased (m.threads t).held) e (safe.guarded t ht)

  pub Move-IsSafe : (n t : ℕ) {m w : Machine M} → Move n t m w → IsSafe n m → IsSafe n w
  Move-IsSafe n t (performs m o k a s ht e run acted) safe =
      performs-IsSafe n t m o k a s ht e run
        (at_return (λ a s. Acted o a (view t m) s) (act o (view t m)) a s acted
          (act-Acted o (view t m)))
        (λ sound words.
          at_return (λ a s. AllWords s) (act o (view t m)) a s acted
            (act-AllWords o (view t m) sound words))
        safe
  Move-IsSafe n t (begins m r p ht e starts) safe =
      leave-IsSafe n t m p (view t m) ht safe
        (rw (idle-released n t m r ht e safe) (Starts-Guards p starts))
        (λ l u hu apart e e'. ground arith) (λ j. refl) safe.words
  Move-IsSafe n t (disturbed m x arriving ht) safe =
      leave-IsSafe n t m (m.threads t).steps (record (view t m) { user = x; signals = arriving }) ht
        safe (safe.guarded t ht) (λ l u hu apart e e'. ground arith) (λ j. refl) safe.words

  -- No thread has begun.
  pub record IsIdle (n : ℕ) (m : Machine M) : Type 0 where
    pub idle : (t : ℕ) → t < n → (r : Ssize) × ((m.threads t).steps ≡ done r)
    pub released : (t : ℕ) → t < n → (m.threads t).held ≡ []
    pub slots : (j : ℕ) → j < mtcadummy_nr_devs → (m.devices j).slot_nr ≡ j
    pub words : (j : ℕ) → j < mtcadummy_nr_devs → HasWords (m.devices j)

  pub IsIdle-IsSafe : (n : ℕ) (m : Machine M) → IsIdle n m → IsSafe n m
  IsIdle-IsSafe n m start = record {
    guarded = λ t ht.
        rw (start.released t ht)
          (rw ((start.idle t ht).1) (Guards-done M AllReleased [] (start.idle t ht).0 refl));
    exclusive = λ t u l ht hu apart e. rw (start.released u hu) refl;
    slots = start.slots;
    words = start.words;
  }

  pub Moves-IsSafe :
      (n : ℕ) (P : ℕ → Type 0) {m w : Machine M} → Moves n P m w → IsSafe n m → IsSafe n w
  Moves-IsSafe n P here safe = safe
  Moves-IsSafe n P (next t by moves move) safe = Move-IsSafe n t move (Moves-IsSafe n P moves safe)
