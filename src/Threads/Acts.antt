-- ===== src/Threads/Acts.antt =====
-- What one operation changes: the mutexes held, and the one place of shared data that it accesses.
use pciedummy_driver.Common.{ℕ, ◌*◌, ltb, ◌<◌, ◌≡◌, Bool, true, false, ◌&&◌, arith, ◌==◌}
use pciedummy_driver.State.{
  HasWords, bar_size, set_bar_word, MtcaDummyData, mtcadummy_nr_devs, system_area, dma_area,
}
use pciedummy_driver.Kernel.{
  Lock, control_mutex, dev_mutex, Host, Sys, Cmd, and_then, next_signal, mutex_lock_interruptible,
  mutex_unlock, get_device, put_device, in_bounds, load_word, store_word, copy_from_user,
  copy_to_user,
}
use pciedummy_driver.Files.{count_up, count_down}
use pciedummy_driver.Proc.{set_control}
use pciedummy_driver.Driver.Effects.{IfReturns}
use pciedummy_driver.Threads.{
  from_user, count_in, count_out, Op, take, get_control, put_control, get_slot_nr, get_bars,
  put_bars, load, store, Answer, act,
}
use pciedummy_driver.Threads.Discipline.{after, Sound, Possible}

-- The control data, or the two arrays of a device.
pub data Place : Type 0 where
  control_data : Place
  bars_of : ℕ → Place

abbrev pub same_place : Place → Place → Bool
same_place control_data control_data = true
same_place control_data (bars_of j) = false
same_place (bars_of i) control_data = false
same_place (bars_of i) (bars_of j) = i == j

-- The count of a device is an `atomic_t`, and its numbers do not change: they are no places.
abbrev pub accesses : Op → Place → Bool
accesses get_control x = same_place control_data x
accesses (put_control c) x = same_place control_data x
accesses (get_bars i) x = same_place (bars_of i) x
accesses (put_bars i d) x = same_place (bars_of i) x
accesses (load i b k) x = same_place (bars_of i) x
accesses (store i b k v) x = same_place (bars_of i) x
accesses o x = false

abbrev pub is_write : Op → Bool
is_write (put_control c) = true
is_write (put_bars i d) = true
is_write (store i b k v) = true
is_write o = false

abbrev pub mutex_of : Place → Lock
mutex_of control_data = control_mutex
mutex_of (bars_of i) = dev_mutex i

module _ {M : Type 0} where
  -- The two states have the same data at a place.
  abbrev pub SameData : Place → Sys M → Sys M → Type 0
  SameData control_data s t = t.control ≡ s.control
  SameData (bars_of i) s t =
      ((t.devices i).system_bar ≡ (s.devices i).system_bar)
      × ((t.devices i).dma_bar ≡ (s.devices i).dma_bar)

  -- A wait for a mutex ends with the signal or with the mutex.
  abbrev pub Woken : (o : Op) → Answer o → Sys M → Type 0
  Woken (take l) a s = a ≡ next_signal s.signals
  Woken o a s = Unit

  pub record Acted (o : Op) (a : Answer o) (s t : Sys M) : Type 0 where
    pub held : t.held ≡ after o a s.held
    pub woken : Woken o a s
    pub slots : (j : ℕ) → (t.devices j).slot_nr ≡ (s.devices j).slot_nr
    pub possible :
        ((j : ℕ) → j < mtcadummy_nr_devs → (s.devices j).slot_nr ≡ j)
        → ((j : ℕ) → j < mtcadummy_nr_devs → HasWords (s.devices j))
        → Possible o a
    pub same : (x : Place) → (accesses o x && is_write o) ≡ false → SameData x s t

module _ {M : Type 0} ⦃host : Host M⦄ where
  pub act-Acted : (o : Op) (s : Sys M) → IfReturns (λ a t. Acted o a s t) (act o s)
  unfolding act mutex_lock_interruptible mutex_unlock get_device put_device in_bounds load_word
      store_word copy_from_user copy_to_user count_up count_down set_control
  act-Acted (get_slot_nr i) s = grind arith
  act-Acted (get_bars i) s = grind arith
  act-Acted (from_user a n) s = ground (arith, host.filled s.user a n)
  act-Acted (store i system_area k v) s = ground arith
  act-Acted (store i dma_area k v) s = ground arith
  act-Acted o s = ground arith

  -- Each word of each device is a `u32`.
  abbrev pub AllWords : Sys M → Type 0
  AllWords s = (j : ℕ) → j < mtcadummy_nr_devs → HasWords (s.devices j)

  changes-AllWords :
      (i : ℕ) (f : MtcaDummyData → MtcaDummyData) (s : Sys M)
      → AllWords s
      → ((d : MtcaDummyData) → HasWords d → HasWords (f d))
      → IfReturns (λ a t. AllWords t) (and_then (get_device i s) λ d. put_device i (f d))
  unfolding get_device put_device
  changes-AllWords i f s w h = grind (arith, w, h)

  if_inside :
      {A : Type 0} (b : Bool) (P : Sys M → Type 0) (s : Sys M) (c : Cmd M A)
      → IfReturns (λ a t. P t) (c s)
      → IfReturns (λ a t. P t) (and_then (in_bounds b s) λ u. c)
  unfolding in_bounds
  if_inside true P s c h = h
  if_inside false P s c h = tt

  pub act-AllWords :
      (o : Op) (s : Sys M) → Sound o → AllWords s → IfReturns (λ a t. AllWords t) (act o s)
  unfolding act mutex_lock_interruptible mutex_unlock get_device put_device in_bounds load_word
      store_word copy_from_user copy_to_user count_up count_down set_control
  act-AllWords (put_bars i d) s sound w =
      changes-AllWords i (λ e. record e { system_bar = d.system_bar; dma_bar = d.dma_bar }) s w
        λ e h. record { system_words = sound.system_words; dma_words = sound.dma_words }
  act-AllWords (store i system_area k v) s sound w =
      if_inside (ltb (k * 4) (bar_size system_area)) AllWords s _ (
        changes-AllWords i (set_bar_word system_area k v) s w λ d h. record {
          system_words = λ j hj. ground (arith, h.system_words j);
          dma_words = h.dma_words;
        })
  act-AllWords (store i dma_area k v) s sound w =
      if_inside (ltb (k * 4) (bar_size dma_area)) AllWords s _ (
        changes-AllWords i (set_bar_word dma_area k v) s w λ d h. record {
          system_words = h.system_words;
          dma_words = λ j hj. ground (arith, h.dma_words j);
        })
  act-AllWords (count_in i) s sound w =
      changes-AllWords i count_up s w
        λ d h. record { system_words = h.system_words; dma_words = h.dma_words }
  act-AllWords (count_out i) s sound w =
      changes-AllWords i count_down s w
        λ d h. record { system_words = h.system_words; dma_words = h.dma_words }
  act-AllWords o s sound w = grind (arith, w)
