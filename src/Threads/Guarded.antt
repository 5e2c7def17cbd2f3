-- ===== src/Threads/Guarded.antt =====
-- The handlers keep to the locking discipline: one rule for each operation, as a thread performs it
-- that holds no mutex or that of one device, and rules for the parts that several handlers share.
pub mod Action
pub mod Requests
pub mod Transfers
pub mod Commands
pub mod Files
use mathlib.Core.Path.{subst}
use pciedummy_driver.Common.{
  ◌^◌, ℕ, ◌*◌, ◌^◌, ◌<◌, ◌≡◌, refl, sym, Bool, true, false, Option, none, some, List, [], ◌∷◌,
  arith, if◌then◌else◌, eqb_refl,
}
use pciedummy_driver.Common.Bytes.{AreBytes}
use pciedummy_driver.Firmware.Words.{HasWords-switch_on_write}
use pciedummy_driver.State.{MtcaDummyControl, MtcaDummyData, Bar, bar_size, HasWords}
use pciedummy_driver.Kernel.{Errno, Lock, control_mutex, dev_mutex, holds, Ssize, Host}
use pciedummy_driver.Threads.{
  take, give, get_control, put_control, get_in_use, count_in, count_out, get_slot_nr, get_bars,
  put_bars, load, store, check_bound, from_user, to_user, check_access, Steps, done, perform, op,
  ◌>>=◌, ◌>>◌,
}
use pciedummy_driver.Threads.Pieces.{
  control_flag_steps, unlock_and_fail_steps, unlock_and_return_steps, action_on_write_steps,
}
use pciedummy_driver.Threads.Discipline.{after, Guards, Guards-then}

by_answer : (P : Bool → Type 0) → P true → P false → (b : Bool) → P b
by_answer P p q true = p
by_answer P p q false = q

pub Guards-done :
    (M : Type 0) {A : Type 0} (Q : A → List Lock → Type 0) (h : List Lock) (a : A)
    → Q a h
    → Guards {M = M} Q h (done a)
unfolding Guards
Guards-done M Q h a q = q

module _ {M A : Type 0} (Q : A → List Lock → Type 0) where
  pub Guards-if :
      (h : List Lock) (b : Bool) (p q : Steps M A)
      → (b ≡ true → Guards Q h p)
      → (b ≡ false → Guards Q h q)
      → Guards Q h (if b then p else q)
  Guards-if h true p q f g = f refl
  Guards-if h false p q f g = g refl

  pub Guards-option :
      {B : Type 0} (h : List Lock) (x : Option B) (p : Steps M A) (q : B → Steps M A)
      → Guards Q h p
      → ((b : B) → x ≡ some b → Guards Q h (q b))
      → Guards Q h (elim x [ none ↦ p | some b ↦ q b ])
  Guards-option h none p q f g = f
  Guards-option h (some b) p q f g = g b refl

  pub Guards-take :
      (i : ℕ) (p q : Steps M A)
      → Guards Q [] p
      → Guards Q (dev_mutex i ∷ []) q
      → Guards Q [] (perform (take (dev_mutex i)) (λ a. if a then p else q))
  unfolding Guards
  Guards-take i p q f g = (
    refl,
    tt,
    λ a possible.
        by_answer (λ a. Guards Q (after (take (dev_mutex i)) a []) (if a then p else q)) f g a,
  )

  pub Guards-give :
      (i : ℕ) (k : Unit {0} → Steps M A)
      → Guards Q [] (k tt)
      → Guards Q (dev_mutex i ∷ []) (perform (give (dev_mutex i)) k)
  unfolding Guards
  Guards-give i k f = (ground arith, tt, λ a possible. rw (eqb_refl i) f)

  pub Guards-slot_nr :
      (h : List Lock) (i : ℕ) (k : ℕ → Steps M A)
      → i < 7
      → Guards Q h (k i)
      → Guards Q h (perform (get_slot_nr i) k)
  unfolding Guards
  Guards-slot_nr h i k hi f =
      (ground arith, tt, λ a possible. subst (λ x. Guards Q h (k x)) (sym possible) f)

  pub Guards-get_in_use :
      (h : List Lock) (i : ℕ) (k : ℕ → Steps M A)
      → i < 7
      → ((n : ℕ) → Guards Q h (k n))
      → Guards Q h (perform (get_in_use i) k)
  unfolding Guards
  Guards-get_in_use h i k hi f = (ground arith, tt, λ a possible. f a)

  pub Guards-count_in :
      (h : List Lock) (i : ℕ) (k : Unit {0} → Steps M A)
      → i < 7
      → Guards Q h (k tt)
      → Guards Q h (perform (count_in i) k)
  unfolding Guards
  Guards-count_in h i k hi f = (ground arith, tt, λ a possible. f)

  pub Guards-count_out :
      (h : List Lock) (i : ℕ) (k : Unit {0} → Steps M A)
      → i < 7
      → Guards Q h (k tt)
      → Guards Q h (perform (count_out i) k)
  unfolding Guards
  Guards-count_out h i k hi f = (ground arith, tt, λ a possible. f)

  -- Read the control data and write it back.
  pub Guards-control_update :
      (change : MtcaDummyControl → MtcaDummyControl) (p q : Steps M A)
      → Guards Q [] p
      → Guards Q [] q
      → Guards Q [] (
          perform (take control_mutex) (λ a.
            if a
            then p
            else do c ← op get_control; op (put_control (change c)); op (give control_mutex); q))
  unfolding Guards
  Guards-control_update change p q f g = (
    refl,
    tt,
    λ a possible.
        by_answer
          (λ a. Guards Q (after (take control_mutex) a []) (
            if a
            then p
            else do c ← op get_control; op (put_control (change c)); op (give control_mutex); q))
          f (refl, tt, λ c possible. (refl, tt, λ u possible. (refl, tt, λ u possible. g))) a,
  )

  pub Guards-get_bars :
      (i : ℕ) (k : MtcaDummyData → Steps M A)
      → i < 7
      → ((d : MtcaDummyData) → HasWords d → Guards Q (dev_mutex i ∷ []) (k d))
      → Guards Q (dev_mutex i ∷ []) (perform (get_bars i) k)
  unfolding Guards
  Guards-get_bars i k hi f = (ground arith, tt, λ a possible. f a possible)

  pub Guards-put_bars :
      (i : ℕ) (d : MtcaDummyData) (k : Unit {0} → Steps M A)
      → i < 7
      → HasWords d
      → Guards Q (dev_mutex i ∷ []) (k tt)
      → Guards Q (dev_mutex i ∷ []) (perform (put_bars i d) k)
  unfolding Guards
  Guards-put_bars i d k hi hd f = (ground arith, hd, λ a possible. f)

  pub Guards-load :
      (i : ℕ) (b : Bar) (n : ℕ) (k : ℕ → Steps M A)
      → i < 7
      → n * 4 < bar_size b
      → ((w : ℕ) → Guards Q (dev_mutex i ∷ []) (k w))
      → Guards Q (dev_mutex i ∷ []) (perform (load i b n) k)
  unfolding Guards
  Guards-load i b n k hi hn f = (ground arith, tt, λ a possible. f a)

  pub Guards-store :
      (i : ℕ) (b : Bar) (n v : ℕ) (k : Unit {0} → Steps M A)
      → i < 7
      → n * 4 < bar_size b
      → v < 2 ^ 32
      → Guards Q (dev_mutex i ∷ []) (k tt)
      → Guards Q (dev_mutex i ∷ []) (perform (store i b n v) k)
  unfolding Guards
  Guards-store i b n v k hi hn hv f = (ground arith, hv, λ a possible. f)

  pub Guards-check_bound :
      (h : List Lock) (b : Bool) (k : Unit {0} → Steps M A)
      → Guards Q h (k tt)
      → Guards Q h (perform (check_bound b) k)
  unfolding Guards
  Guards-check_bound h b k f = (refl, tt, λ a possible. f)

  pub Guards-from_user :
      (h : List Lock) (a n : ℕ) (k : (List ℕ × ℕ) → Steps M A)
      → ((r : List ℕ × ℕ) → AreBytes r.0 → Guards Q h (k r))
      → Guards Q h (perform (from_user a n) k)
  unfolding Guards
  Guards-from_user h a n k f = (refl, tt, λ r possible. f r possible)

  pub Guards-to_user :
      (h : List Lock) (a : ℕ) (bs : List ℕ) (k : ℕ → Steps M A)
      → ((left : ℕ) → Guards Q h (k left))
      → Guards Q h (perform (to_user a bs) k)
  unfolding Guards
  Guards-to_user h a bs k f = (refl, tt, λ r possible. f r)

  pub Guards-check_access :
      (h : List Lock) (a n : ℕ) (k : Bool → Steps M A)
      → ((b : Bool) → Guards Q h (k b))
      → Guards Q h (perform (check_access a n) k)
  unfolding Guards
  Guards-check_access h a n k f = (refl, tt, λ r possible. f r)

  pub Guards-control_flag :
      (flag : MtcaDummyControl → Bool) (f : Option Bool → Steps M A)
      → Guards Q [] (f none)
      → ((b : Bool) → Guards Q [] (f (some b)))
      → Guards Q [] (control_flag_steps flag >>= f)
  unfolding Guards control_flag_steps
  Guards-control_flag flag f p q = (refl, tt, λ a possible. after_take a)
    where
      after_take :
          (a : Bool)
          → Guards Q (after (take control_mutex) a []) (
              (if a
                then done none
                else do c ← op get_control; op (give control_mutex); done (some (flag c)))
              >>= f)
      after_take true = p
      after_take false = (refl, tt, λ c possible. (refl, tt, λ u possible. q (flag c)))

  pub Guards-control_flag_inside :
      (i : ℕ) (flag : MtcaDummyControl → Bool) (f : Option Bool → Steps M A)
      → Guards Q (dev_mutex i ∷ []) (f none)
      → ((b : Bool) → Guards Q (dev_mutex i ∷ []) (f (some b)))
      → Guards Q (dev_mutex i ∷ []) (control_flag_steps flag >>= f)
  unfolding Guards control_flag_steps
  Guards-control_flag_inside i flag f p q = (refl, tt, λ a possible. after_take a)
    where
      after_take :
          (a : Bool)
          → Guards Q (after (take control_mutex) a (dev_mutex i ∷ [])) (
              (if a
                then done none
                else do c ← op get_control; op (give control_mutex); done (some (flag c)))
              >>= f)
      after_take true = p
      after_take false = (refl, tt, λ c possible. (refl, tt, λ u possible. q (flag c)))

pub ruleset guard_rules = (
  Guards-done, Guards-if, Guards-option, Guards-take, Guards-give, Guards-slot_nr, Guards-get_bars,
  Guards-put_bars, Guards-load, Guards-store, Guards-check_bound, Guards-from_user, Guards-to_user,
  Guards-check_access, Guards-get_in_use, Guards-count_in, Guards-count_out, Guards-control_update,
  Guards-control_flag, Guards-control_flag_inside,
)
