-- ===== src/Kernel/Laws.antt =====
-- What a run leaves behind.
use pciedummy_driver.Common.{
  ℕ, ◌<◌, ◌≡◌, ◌∙◌, Bool, true, false, Option, none, some, [], ◌∷◌, arith, ltb, ◌==◌, if◌then◌else◌,
}
use pciedummy_driver.State.{mtcadummy_nr_devs}
use pciedummy_driver.Kernel.{
  Ssize, size, error, erestartsys, Sys, Run, Cmd, and_then, ok, fault, dev_mutex, later_signals,
}

module _ {M A : Type 0} where
  -- The run ends, and its result and final state are as `P` says.
  abbrev pub Ends : (A → Sys M → Type 0) → Run M A → Type 0
  Ends P (ok a s) = P a s
  Ends P (fault e) = ⊥

-- The state in which a handler is called: the thread holds no mutex, and each device knows its
-- number, which the firmware uses to find the device again.
module _ {M : Type 0} where
  pub record IsReady (s : Sys M) : Type 0 where
    pub free : s.held ≡ []
    pub slots : (i : ℕ) → i < mtcadummy_nr_devs → (s.devices i).slot_nr ≡ i

  -- Between `s` and `t` at most the words of the two bars of device `i`, the process's memory, the
  -- pending signals and the mutexes held have changed, and no word outside the bars has.
  pub record BarsOnly (i : ℕ) (s t : Sys M) : Type 0 where
    pub control : t.control ≡ s.control
    pub others : (j : ℕ) → t.devices j ≡ (if j == i then t.devices i else s.devices j)
    pub slot_nr : (t.devices i).slot_nr ≡ (s.devices i).slot_nr
    pub in_use : (t.devices i).in_use ≡ (s.devices i).in_use
    pub numbers :
        ((t.devices i).minor ≡ (s.devices i).minor) × ((t.devices i).major ≡ (s.devices i).major)
    pub system_end :
        (k : ℕ)
        → (t.devices i).system_bar k
          ≡ (if ltb k 32 then (t.devices i).system_bar k else (s.devices i).system_bar k)
    pub dma_end :
        (k : ℕ)
        → (t.devices i).dma_bar k
          ≡ (if ltb k 1024 then (t.devices i).dma_bar k else (s.devices i).dma_bar k)

  -- So it is, and no mutex is held at the end.
  pub record ChangesBars (i : ℕ) (s t : Sys M) : Type 0 where
    pub free : t.held ≡ []
    pub bars : BarsOnly i s t
    pub open bars use *

  -- Between `s` and `t` at most the process's memory and the pending signals have changed.
  pub record ReadsOnly (s t : Sys M) : Type 0 where
    pub free : t.held ≡ []
    pub control : t.control ≡ s.control
    pub devices : t.devices ≡ s.devices

  -- The state of `s` after the mutex of the control data was taken and released, and that of
  -- device `i` taken.
  abbrev pub entered : ℕ → Sys M → Sys M
  entered i s = record s {
    signals = later_signals (later_signals s.signals);
    held = dev_mutex i ∷ s.held;
  }

module _ {M A : Type 0} where
  pub Ends-both :
      (P Q : A → Sys M → Type 0) (r : Run M A) → Ends P r → Ends Q r → Ends (λ a t. P a t × Q a t) r
  Ends-both P Q (ok a s) p q = (p, q)
  Ends-both P Q (fault e) p q = p

  pub Ends-all :
      {I : Type 0} (P : I → A → Sys M → Type 0) (r : Run M A)
      → Ends (λ a t. Unit) r
      → ((i : I) → Ends (P i) r)
      → Ends (λ a t. (i : I) → P i a t) r
  Ends-all P (ok a s) u p = p
  Ends-all P (fault e) u p = u

  pub Ends-mono :
      {P Q : A → Sys M → Type 0} (r : Run M A)
      → Ends P r
      → ((a : A) (t : Sys M) → P a t → Q a t)
      → Ends Q r
  Ends-mono (ok a s) p f = f a s p
  Ends-mono (fault e) p f = p

  pub Ends-bind :
      {B : Type 0} {P : A → Sys M → Type 0} (Q : B → Sys M → Type 0) (r : Run M A) (f : A → Cmd M B)
      → Ends P r
      → ((a : A) (t : Sys M) → P a t → Ends Q (f a t))
      → Ends Q (and_then r f)
  Ends-bind Q (ok a s) f p k = k a s p
  Ends-bind Q (fault e) f p k = p

module _ {M : Type 0} where
  -- A handler that changes one device's bars leaves a state in which handlers may be called.
  pub ChangesBars-IsReady : (i : ℕ) (s t : Sys M) → ChangesBars i s t → IsReady s → IsReady t
  ChangesBars-IsReady i s t c ready = record {
    free = c.free;
    slots = λ j h. grind (arith, ready.slots, c.others j);
  }

  pub ReadsOnly-IsReady : (s t : Sys M) → ReadsOnly s t → IsReady s → IsReady t
  ReadsOnly-IsReady s t c ready = record {
    free = c.free;
    slots = λ j h. rw c.devices (ready.slots j h);
  }

module _ {M : Type 0} where
  -- Between two calls the process changes its memory.
  abbrev pub process_writes : M → Cmd M (Unit {0})
  process_writes m s = ok tt (record s { user = m })

  pub BarsOnly-trans : (i : ℕ) (s t u : Sys M) → BarsOnly i s t → BarsOnly i t u → BarsOnly i s u
  BarsOnly-trans i s t u a b = record {
    control = b.control ∙ a.control;
    others = λ j. ground (arith, a.others j, b.others j);
    slot_nr = b.slot_nr ∙ a.slot_nr;
    in_use = b.in_use ∙ a.in_use;
    numbers = (b.numbers.0 ∙ a.numbers.0, b.numbers.1 ∙ a.numbers.1);
    system_end = λ k. ground (arith, a.system_end k, b.system_end k);
    dma_end = λ k. ground (arith, a.dma_end k, b.dma_end k);
  }

module _ {M : Type 0} where
  -- The state of `s` after the mutex of device `i` was taken.
  abbrev pub locked : ℕ → Sys M → Sys M
  locked i s = record s { signals = later_signals s.signals; held = dev_mutex i ∷ s.held }

-- What a system call makes of the result of a handler: `none` stands for -1.
abbrev pub count_of : Ssize → Option ℕ
count_of (size n) = some n
count_of (error e) = none

-- Linux may restart the call on such a result.
abbrev pub is_restart : Ssize → Bool
is_restart (error erestartsys) = true
is_restart a = false

-- A ready state in which neither an injected failure nor a signal disturbs a read or a write.
pub record IsCalm {M : Type 0} (s : Sys M) : Type 0 where
  pub ready : IsReady s
  pub no_signal : s.signals ≡ []
  pub no_read_failure : s.control.read_error ≡ false
  pub no_write_failure : s.control.write_error ≡ false
