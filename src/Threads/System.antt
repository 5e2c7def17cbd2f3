-- ===== src/Threads/System.antt =====
-- Threads that run handlers of mtcadummy_drv.c, mtcadummy_rw_no_struct.c and mtcadummy_proc.c at
-- the same time, one operation of one thread after another in any order. They share the control
-- data and the devices; each has the mutexes it holds, its pending signals and its own view of the
-- process's memory, which other threads of the process change between operations. A mutex is taken
-- while no other thread holds it, unless a signal interrupts the wait; an operation that faults has
-- no step.
pub mod Invariant
pub mod Loaded
pub mod Races
pub mod Progress
use pciedummy_driver.Common.{ℕ, ◌<◌, ◌≡◌, ◌⊎◌, Bool, true, false, Option, some, List, ◌==◌, update}
use pciedummy_driver.State.{MtcaDummyData, MtcaDummyControl, mtcadummy_nr_devs}
use pciedummy_driver.Kernel.{Lock, holds, Ssize, Host, Sys, ok, next_signal}
use pciedummy_driver.Driver.{Call, IsValid}
use pciedummy_driver.Threads.{Op, take, Answer, Steps, done, perform, ◌>>=◌, act}
use pciedummy_driver.Threads.Files.{steps_of, mtca_dummy_open_steps, mtca_dummy_release_steps}

-- `steps` is what the thread has still to do.
pub record Thread (M : Type 0) : Type 0 where
  pub steps : Steps M Ssize
  pub held : List Lock
  pub signals : List Bool
  pub user : M

pub record Machine (M : Type 0) : Type 0 where
  pub control : MtcaDummyControl
  pub devices : ℕ → MtcaDummyData
  pub threads : ℕ → Thread M

module _ {M : Type 0} where
  -- The state as thread `t` sees it, and the machine after it has performed an operation.
  abbrev pub view : ℕ → Machine M → Sys M
  view t m = record {
    control = m.control;
    devices = m.devices;
    held = (m.threads t).held;
    signals = (m.threads t).signals;
    user = (m.threads t).user;
  }

  abbrev pub leave : ℕ → Steps M Ssize → Sys M → Machine M → Machine M
  leave t p s m = record {
    control = s.control;
    devices = s.devices;
    threads =
        update m.threads t
          (record { steps = p; held = s.held; signals = s.signals; user = s.user });
  }

  -- None of the other `n` threads holds the mutex.
  abbrev pub IsFree : ℕ → ℕ → Lock → Machine M → Type 0
  IsFree n t l m = (u : ℕ) → u < n → (u == t) ≡ false → holds l (m.threads u).held ≡ false

  abbrev pub MayRun : ℕ → ℕ → Op → Machine M → Type 0
  MayRun n t (take l) m = (next_signal (m.threads t).signals ≡ true) ⊎ IsFree n t l m
  MayRun n t o m = Unit

-- What an idle thread starts.
pub data Starts {M : Type 0} ⦃host : Host M⦄ : Steps M Ssize → Type 0 where
  calls : (c : Call) (p : Steps M Ssize) → IsValid c → steps_of c ≡ some p → Starts p
  opens : (i : ℕ) → i < mtcadummy_nr_devs → Starts (mtca_dummy_open_steps i >>= λ r. done r.0)
  closes : (i : ℕ) → i < mtcadummy_nr_devs → Starts (mtca_dummy_release_steps i)

-- A step of thread `t`, one of `n`.
pub data Move {M : Type 0} ⦃host : Host M⦄ (n t : ℕ) : Machine M → Machine M → Type 0 where
  performs :
      (m : Machine M) (o : Op) (k : Answer o → Steps M Ssize) (a : Answer o) (s : Sys M)
      → t < n
      → (m.threads t).steps ≡ perform o k
      → MayRun n t o m
      → act o (view t m) ≡ ok a s
      → Move n t m (leave t (k a) s m)
  begins :
      (m : Machine M) (r : Ssize) (p : Steps M Ssize)
      → t < n
      → (m.threads t).steps ≡ done r
      → Starts p
      → Move n t m (leave t p (view t m) m)
  disturbed :
      (m : Machine M) (x : M) (arriving : List Bool)
      → t < n
      → Move n t m
          (leave t (m.threads t).steps (record (view t m) { user = x; signals = arriving }) m)

-- The machines that any number of steps leads to, of threads that are as `P` says.
pub data Moves {M : Type 0} ⦃host : Host M⦄ (n : ℕ) (P : ℕ → Type 0) (m : Machine M)
    : Machine M → Type 0 where
  here : Moves n P m m
  next : {v w : Machine M} (t : ℕ) → P t → Moves n P m v → Move n t v w → Moves n P m w
