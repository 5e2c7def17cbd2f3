-- ===== src/Threads.antt =====
-- The handlers of the driver as sequences of single operations, so that calls of several threads
-- can interleave. An operation is a call of Linux or one access of shared data that no other
-- thread divides: taking or releasing a mutex, an access of the control data, of a word or of the
-- arrays of a device, of the `atomic_t` count, of the fields that are set when the module is
-- loaded, or of the process's memory. `act` performs an operation with the definitions of
-- Kernel.antt, and `run` performs all of them without a break.
pub mod Pieces
pub mod Requests
pub mod Transfers
pub mod Commands
pub mod Files
pub mod Discipline
pub mod Guarded
pub mod Acts
pub mod Runs
pub mod System
pub mod Laws
use pciedummy_driver.Common.{ℕ, Bool, List}
use pciedummy_driver.State.{MtcaDummyData, MtcaDummyControl, Bar}
use pciedummy_driver.Kernel.{
  Lock, control_mutex, Host, Sys, Cmd, and_then, ok, pure, gets, mutex_lock_interruptible,
  mutex_unlock, get_device, put_device, in_bounds, load_word, store_word, copy_from_user,
  copy_to_user,
}
use pciedummy_driver.Files.{count_up, count_down}
use pciedummy_driver.Proc.{set_control}

pub data Op : Type 0 where
  take give : Lock → Op
  get_control : Op
  put_control : MtcaDummyControl → Op
  get_slot_nr get_in_use count_in count_out : (i : ℕ) → Op
  get_bars : (i : ℕ) → Op
  put_bars : (i : ℕ) → MtcaDummyData → Op
  load : (i : ℕ) → Bar → ℕ → Op
  store : (i : ℕ) → Bar → ℕ → ℕ → Op
  check_bound : Bool → Op
  from_user : (a n : ℕ) → Op
  to_user : ℕ → List ℕ → Op
  check_access : (a n : ℕ) → Op

-- What an operation gives back; for `take`, if a signal interrupted it.
abbrev pub Answer : Op → Type 0
Answer (take l) = Bool
Answer (give l) = Unit
Answer get_control = MtcaDummyControl
Answer (put_control c) = Unit
Answer (get_slot_nr i) = ℕ
Answer (get_in_use i) = ℕ
Answer (count_in i) = Unit
Answer (count_out i) = Unit
Answer (get_bars i) = MtcaDummyData
Answer (put_bars i d) = Unit
Answer (load i b k) = ℕ
Answer (store i b k v) = Unit
Answer (check_bound b) = Unit
Answer (from_user a n) = List ℕ × ℕ
Answer (to_user a bs) = ℕ
Answer (check_access a n) = Bool

-- `M` is the type of process memories, which decides what Linux answers.
pub data Steps (M A : Type 0) : Type 0 where
  done : A → Steps M A
  perform : (o : Op) → (Answer o → Steps M A) → Steps M A

module _ {M : Type 0} where
  abbrev pub op : (o : Op) → Steps M (Answer o)
  op o = perform o done

  infixl 5 ◌>>=◌ ◌>>◌
  abbrev pub ◌>>=◌ : {A B : Type 0} → Steps M A → (A → Steps M B) → Steps M B
  done a >>= f = f a
  perform o k >>= f = perform o (λ a. k a >>= f)

  abbrev pub ◌>>◌ : {B : Type 0} → Steps M (Unit {0}) → Steps M B → Steps M B
  p >> q = p >>= λ _. q

module _ {M : Type 0} ⦃host : Host M⦄ where
  -- `put_bars` writes the two arrays, and leaves the other fields of the device as they are.
  unfoldable pub act : (o : Op) → Cmd M (Answer o)
  act (take l) s = mutex_lock_interruptible l s
  act (give l) s = mutex_unlock l s
  act get_control s = gets (λ s. s.control) s
  act (put_control c) s = set_control c s
  act (get_slot_nr i) s = and_then (get_device i s) λ d. pure d.slot_nr
  act (get_in_use i) s = and_then (get_device i s) λ d. pure d.in_use
  act (count_in i) s = and_then (get_device i s) λ d. put_device i (count_up d)
  act (count_out i) s = and_then (get_device i s) λ d. put_device i (count_down d)
  act (get_bars i) s = get_device i s
  act (put_bars i d) s =
      and_then (get_device i s)
        λ e. put_device i (record e { system_bar = d.system_bar; dma_bar = d.dma_bar })
  act (load i b k) s = load_word i b k s
  act (store i b k v) s = store_word i b k v s
  act (check_bound b) s = in_bounds b s
  act (from_user a n) s = copy_from_user a n s
  act (to_user a bs) s = copy_to_user a bs s
  act (check_access a n) s = gets (λ s. host.access_ok s.user a n) s

  abbrev pub run : {A : Type 0} → Steps M A → Cmd M A
  run (done a) s = ok a s
  run (perform o k) s = and_then (act o s) λ a. run (k a)
