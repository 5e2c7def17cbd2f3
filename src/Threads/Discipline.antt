-- ===== src/Threads/Discipline.antt =====
-- The locking discipline of mtcadummy_drv.c, mtcadummy_rw_no_struct.c, mtcadummy_firmware.c and
-- mtcadummy_proc.c: which mutex an access needs, and in which order mutexes are taken.
use mathlib.Core.Path.{subst}
use pciedummy_driver.Common.{
  ◌<◌, ◌^◌, ◌*◌, ◌≡◌, sym, Bool, true, false, not, ◌&&◌, List, [], ◌∷◌, ltb,
}
use pciedummy_driver.Common.Bytes.{AreBytes}
use pciedummy_driver.State.{mtcadummy_nr_devs, bar_size, HasWords}
use pciedummy_driver.Kernel.{Lock, control_mutex, dev_mutex, holds, release}
use pciedummy_driver.Threads.{
  Op, take, give, get_control, put_control, get_slot_nr, get_in_use, count_in, count_out, get_bars,
  put_bars, load, store, check_bound, from_user, to_user, check_access, Answer, Steps, done,
  perform, ◌>>=◌,
}

abbrev pub is_empty : List Lock → Bool
is_empty [] = true
is_empty (l ∷ ls) = false

-- What a thread that holds the mutexes `h` may do next. The mutex of a device is taken only by a
-- thread that holds none, that of the control data may be taken inside it. The control data and
-- the arrays of a device are accessed only while their mutex is held, and within their bounds.
abbrev pub allowed : List Lock → Op → Bool
allowed h (take control_mutex) = not (holds control_mutex h)
allowed h (take (dev_mutex i)) = is_empty h
allowed h (give l) = holds l h
allowed h get_control = holds control_mutex h
allowed h (put_control c) = holds control_mutex h
allowed h (get_slot_nr i) = ltb i mtcadummy_nr_devs
allowed h (get_in_use i) = ltb i mtcadummy_nr_devs
allowed h (count_in i) = ltb i mtcadummy_nr_devs
allowed h (count_out i) = ltb i mtcadummy_nr_devs
allowed h (get_bars i) = ltb i mtcadummy_nr_devs && holds (dev_mutex i) h
allowed h (put_bars i d) = ltb i mtcadummy_nr_devs && holds (dev_mutex i) h
allowed h (load i b k) =
    ltb i mtcadummy_nr_devs && (holds (dev_mutex i) h && ltb (k * 4) (bar_size b))
allowed h (store i b k v) =
    ltb i mtcadummy_nr_devs && (holds (dev_mutex i) h && ltb (k * 4) (bar_size b))
allowed h (check_bound b) = true
allowed h (from_user a n) = true
allowed h (to_user a bs) = true
allowed h (check_access a n) = true

-- The mutexes held after an operation that was answered with `a`.
abbrev pub after : (o : Op) → Answer o → List Lock → List Lock
after (take l) true h = h
after (take l) false h = l ∷ h
after (give l) a h = release l h
after o a h = h

-- What an operation writes to the arrays is made of 32-bit words.
abbrev pub Sound : Op → Type 0
Sound (put_bars i d) = HasWords d
Sound (store i b k v) = v < 2 ^ 32
Sound o = Unit

-- The answers that a thread gets when each device knows its number and has 32-bit words.
abbrev pub Possible : (o : Op) → Answer o → Type 0
Possible (get_slot_nr i) a = a ≡ i
Possible (get_bars i) a = HasWords a
Possible (from_user x n) a = AreBytes a.0
Possible o a = Unit

abbrev pub AllReleased : {A : Type 0} → A → List Lock → Type 0
AllReleased a h = h ≡ []

module _ {M : Type 0} where
  -- Whatever the answers are, the operations keep to the discipline, and the result and the
  -- mutexes held at the end are as `Q` says.
  unfoldable pub Guards : {A : Type 0} → (A → List Lock → Type 0) → List Lock → Steps M A → Type 0
  Guards Q h (done a) = Q a h
  Guards Q h (perform o k) =
      (allowed h o ≡ true)
      × Sound o
      × ((a : Answer o) → Possible o a → Guards Q (after o a h) (k a))

  pub Guards-bind :
      {A B : Type 0} (Q : A → List Lock → Type 0) (R : B → List Lock → Type 0) (h : List Lock)
      (p : Steps M A) (f : A → Steps M B)
      → Guards Q h p
      → ((a : A) (h' : List Lock) → Q a h' → Guards R h' (f a))
      → Guards R h (p >>= f)
  unfolding Guards
  Guards-bind Q R h (done a) f g k = k a h g
  Guards-bind Q R h (perform o q) f (ok, sound, g) k =
      (ok, sound, λ a possible. Guards-bind Q R (after o a h) (q a) f (g a possible) k)

  -- Parts that end holding what they began with.
  pub Guards-then :
      {A B : Type 0} (R : B → List Lock → Type 0) (h : List Lock) (p : Steps M A)
      (f : A → Steps M B)
      → Guards (λ a h'. h' ≡ h) h p
      → ((a : A) → Guards R h (f a))
      → Guards R h (p >>= f)
  Guards-then R h p f g k =
      Guards-bind (λ a h'. h' ≡ h) R h p f g λ a h' e. subst (λ h'. Guards R h' (f a)) (sym e) (k a)
