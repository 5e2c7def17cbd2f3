-- ===== src/Examples/Threads.antt =====
-- Two processes that open devices 0 and 1 at the same time.
use pciedummy_driver.Common.{
  ℕ, ◌≡◌, refl, inr, false, some, none, [], ◌∷◌, arith, if◌then◌else◌, Option, ◌==◌,
}
use pciedummy_driver.State.{MtcaDummyControl}
use pciedummy_driver.Kernel.{control_mutex, einval, error, size, Ssize, mutex_lock_interruptible}
use pciedummy_driver.Threads.{take, give, get_control, count_in, Steps, done, op, ◌>>=◌, ◌>>◌, act}
use pciedummy_driver.Threads.Pieces.{control_flag_steps}
use pciedummy_driver.Threads.Files.{mtca_dummy_open_steps}
use pciedummy_driver.Threads.Acts.{control_data, accesses}
use pciedummy_driver.Threads.System.{
  Machine, view, leave, opens, performs, begins, Moves, here, next,
}
use pciedummy_driver.Threads.System.Invariant.{IsIdle}
use pciedummy_driver.Threads.System.Races.{no_data_race, section_is_stable}
use pciedummy_driver.Threads.System.Progress.{GoesOn, no_deadlock}
use pciedummy_driver.Examples.{Memory, machine, no_failures, device}

abbrev idle_machine : Machine Memory
idle_machine = record {
  control = no_failures;
  devices = device;
  threads = λ t. record { steps = done (size 0); held = []; signals = []; user = λ k. 0 };
}

idle_machine-IsIdle : IsIdle 2 idle_machine
idle_machine-IsIdle = record {
  idle = λ t h. (size 0, refl);
  released = λ t h. refl;
  slots = λ j h. refl;
  words = λ j h. record {
    system_words = λ k hk. omega (arith, hk);
    dma_words = λ k hk. omega (arith, hk);
  };
}

abbrev opening : ℕ → Steps Memory Ssize
opening i = mtca_dummy_open_steps i >>= λ r. done r.0

abbrev answer_open : MtcaDummyControl → Steps Memory (Ssize × Option ℕ)
answer_open c =
    if c.open_error then done (error einval, none) else do op (count_in 0); done (size 0, some 0)

-- What is left when the mutex of the control data is taken.
abbrev opening_locked : Steps Memory Ssize
opening_locked = do c ← op get_control; op (give control_mutex); answer_open c >>= λ r. done r.0

abbrev begun : Machine Memory
begun = leave 0 (opening 0) (view 0 idle_machine) idle_machine

-- The first process holds the mutex.
abbrev holding : Machine Memory
holding = leave 0 opening_locked (record (view 0 begun) { held = control_mutex ∷ [] }) begun

-- The second one is about to take it.
abbrev waiting : Machine Memory
waiting = leave 1 (opening 1) (view 1 holding) holding

idle-holding : Moves 2 (λ u. Unit) idle_machine holding
unfolding act mutex_lock_interruptible mtca_dummy_open_steps control_flag_steps
idle-holding =
    next 0 tt
      (next 0 tt here
        (begins idle_machine (size 0) (opening 0) (omega arith) refl (opens 0 (omega arith))))
      (performs begun (take control_mutex) _ false _ (omega arith) refl
        (inr (λ u h apart. ground arith)) refl)

joins : Moves 2 (λ u. (u == 0) ≡ false) holding waiting
joins =
    next 1 refl here
      (begins holding (size 0) (opening 1) (omega arith) refl (opens 1 (omega arith)))

idle-waiting : Moves 2 (λ u. Unit) idle_machine waiting
idle-waiting =
    next 1 tt idle-holding
      (begins holding (size 0) (opening 1) (omega arith) refl (opens 1 (omega arith)))

no_data_race_example : accesses (take control_mutex) control_data ≡ false
unfolding mtca_dummy_open_steps control_flag_steps
no_data_race_example =
    no_data_race 2 0 1 get_control (take control_mutex) _ _ control_data idle_machine-IsIdle
      idle-waiting (omega arith) (omega arith) refl refl refl refl

section_is_stable_example :
    (waiting.control ≡ holding.control) × (waiting.threads 0 ≡ holding.threads 0)
section_is_stable_example =
    section_is_stable 2 0 control_data idle_machine-IsIdle idle-holding (omega arith) refl joins

no_deadlock_example : (v : ℕ) × GoesOn 2 v waiting
unfolding mtca_dummy_open_steps control_flag_steps
no_deadlock_example =
    no_deadlock 2 1 (take control_mutex) _ idle_machine-IsIdle idle-waiting (omega arith) refl
