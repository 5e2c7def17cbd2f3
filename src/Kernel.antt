-- ===== src/Kernel.antt =====
-- What the handlers run on. A command passes the state of the driver along: the control data, the
-- array `dummyPrivateData`, the mutexes that this thread holds, the outcomes of the coming
-- attempts to take a mutex (true: a signal interrupts it), and the memory of the calling process.
-- A fault is what the C code must never do: wait for a mutex that it holds, release one that it
-- does not hold, or access memory outside an allocated array.
-- The calls into Linux and the version numbers of the generated version.h are parameters: an
-- instance of `Host`, which also states what the code relies on.
pub mod Laws
use pciedummy_driver.Common.{
  ℕ, ◌+◌, ◌*◌, ◌^◌, ◌≤◌, ◌<◌, ◌≡◌, ◌⊎◌, Bool, true, false, ◌||◌, Option, none, some, List, [], ◌∷◌,
  ◌==◌, if◌then◌else◌, ltb, length, update,
}
use pciedummy_driver.Common.Bytes.{AreBytes}
use pciedummy_driver.State.{
  MtcaDummyData, MtcaDummyControl, mtcadummy_nr_devs, Bar, bar_size, bar_words, set_bar_word,
}

-- The error codes that the handlers return; `eperm` is the plain `-1`.
pub data Errno : Type 0 where
  eperm eio efault einval enotty erestartsys ewouldblock : Errno

-- An `ssize_t`, `long` or `int` result: a count, or a negative error code.
pub data Ssize : Type 0 where
  size : ℕ → Ssize
  error : Errno → Ssize

pub data Lock : Type 0 where
  control_mutex : Lock
  dev_mutex : ℕ → Lock

abbrev pub same_lock : Lock → Lock → Bool
same_lock control_mutex control_mutex = true
same_lock control_mutex (dev_mutex j) = false
same_lock (dev_mutex i) control_mutex = false
same_lock (dev_mutex i) (dev_mutex j) = i == j

abbrev pub holds : Lock → List Lock → Bool
holds l [] = false
holds l (k ∷ ks) = same_lock l k || holds l ks

abbrev pub release : Lock → List Lock → List Lock
release l [] = []
release l (k ∷ ks) = if same_lock l k then ks else k ∷ release l ks

pub record Sys (M : Type 0) : Type 0 where
  pub control : MtcaDummyControl
  pub devices : ℕ → MtcaDummyData
  pub held : List Lock
  pub signals : List Bool
  pub user : M

-- `MTCADUMMY_DRV_VERSION_MAJ` and `MTCADUMMY_DRV_VERSION_MIN`, from the generated version.h.
pub record Version : Type 0 where
  pub maj : ℕ
  pub min : ℕ

-- Linux as the driver sees it, over a type of process memories.
-- `copy_from_user m a n` is what the destination holds after copying `n` bytes from address `a`,
-- and the number of bytes that could not be copied, which Linux fills with zeros.
-- `copy_to_user m a bs` is the memory after the call and the number of bytes not copied.
-- `iowr_int t n` is the ioctl command `_IOWR(t, n, int)`, and `ioc_type`, `ioc_nr` and `ioc_size`
-- take a command apart. `sscanf_int prefix token` is the `int` that `sscanf(token, "prefix%i", …)`
-- stores, as a 32-bit pattern, or `none` if it does not return 1.
pub record Host (M : Type 0) : Type 0 where
  pub version : Version
  pub access_ok : M → ℕ → ℕ → Bool
  pub copy_from_user : M → ℕ → ℕ → List ℕ × ℕ
  pub copy_to_user : M → ℕ → List ℕ → M × ℕ
  pub iowr_int : ℕ → ℕ → ℕ
  pub ioc_type : ℕ → ℕ
  pub ioc_nr : ℕ → ℕ
  pub ioc_size : ℕ → ℕ
  pub sscanf_int : List ℕ → List ℕ → Option ℕ
  pub version_is_words : (version.maj < 2 ^ 32) × (version.min < 2 ^ 32)
  -- The destination of a copy from the process is filled.
  pub filled :
      (m : M) (a n : ℕ) → (length (copy_from_user m a n).0 ≡ n) × AreBytes (copy_from_user m a n).0
  -- Bytes that were copied to the process are there.
  pub copied :
      (m : M) (a : ℕ) (bs : List ℕ)
      → AreBytes bs
      → (copy_to_user m a bs).1 ≡ 0
      → copy_from_user (copy_to_user m a bs).0 a (length bs) ≡ (bs, 0)
  -- Bytes outside the range that is copied to stay as they are.
  pub outside :
      (m : M) (a b n : ℕ) (bs : List ℕ)
      → (b + n ≤ a) ⊎ (a + length bs ≤ b)
      → copy_from_user (copy_to_user m a bs).0 b n ≡ copy_from_user m b n
  pub ioc_type-iowr_int : (t n : ℕ) → t < 256 → n < 256 → ioc_type (iowr_int t n) ≡ t
  pub ioc_nr-iowr_int : (t n : ℕ) → t < 256 → n < 256 → ioc_nr (iowr_int t n) ≡ n

pub data Fault : Type 0 where
  deadlock not_held out_of_bounds : Fault

pub data Run (M A : Type 0) : Type 0 where
  ok : A → Sys M → Run M A
  fault : Fault → Run M A

abbrev pub Cmd : Type 0 → Type 0 → Type 0
Cmd M A = Sys M → Run M A

abbrev pub next_signal : List Bool → Bool
next_signal [] = false
next_signal (b ∷ bs) = b

abbrev pub later_signals : List Bool → List Bool
later_signals [] = []
later_signals (b ∷ bs) = bs

module _ {M : Type 0} where
  abbrev pub pure : {A : Type 0} → A → Cmd M A
  pure a s = ok a s

  abbrev pub and_then : {A B : Type 0} → Run M A → (A → Cmd M B) → Run M B
  and_then (ok a s) f = f a s
  and_then (fault e) f = fault e

  infixl 5 ◌>>=◌ ◌>>◌
  abbrev pub ◌>>=◌ : {A B : Type 0} → Cmd M A → (A → Cmd M B) → Cmd M B
  ◌>>=◌ m f s = and_then (m s) f

  abbrev pub ◌>>◌ : {B : Type 0} → Cmd M (Unit {0}) → Cmd M B → Cmd M B
  m >> k = m >>= λ _. k

  abbrev pub gets : {A : Type 0} → (Sys M → A) → Cmd M A
  gets f s = ok (f s) s

  -- True if a signal interrupted the attempt.
  unfoldable pub mutex_lock_interruptible : Lock → Cmd M Bool
  mutex_lock_interruptible l s =
      if next_signal s.signals
      then ok true (record s { signals = later_signals s.signals })
      else if holds l s.held
      then fault deadlock
      else ok false (record s { signals = later_signals s.signals; held = l ∷ s.held })

  unfoldable pub mutex_unlock : Lock → Cmd M (Unit {0})
  mutex_unlock l s =
      if holds l s.held then ok tt (record s { held = release l s.held }) else fault not_held

  -- `dummyPrivateData[i]`.
  unfoldable pub get_device : ℕ → Cmd M MtcaDummyData
  get_device i s = if ltb i mtcadummy_nr_devs then ok (s.devices i) s else fault out_of_bounds

  unfoldable pub put_device : ℕ → MtcaDummyData → Cmd M (Unit {0})
  put_device i d s =
      if ltb i mtcadummy_nr_devs
      then ok tt (record s { devices = update s.devices i d })
      else fault out_of_bounds

  -- A test of a bound of an array in kernel memory.
  unfoldable pub in_bounds : Bool → Cmd M (Unit {0})
  in_bounds b s = if b then ok tt s else fault out_of_bounds

  -- A flag of the control data, read while holding its mutex; `none` if a signal came first.
  unfoldable pub control_flag : (MtcaDummyControl → Bool) → Cmd M (Option Bool)
  unfolding mutex_lock_interruptible mutex_unlock
  control_flag flag = do
    interrupted ← mutex_lock_interruptible control_mutex
    if interrupted
        then pure none
        else do b ← gets (λ s. flag s.control); mutex_unlock control_mutex; pure (some b)

  -- `mutex_unlock(&privData->devMutex); return -e;`
  unfoldable pub unlock_and_fail : ℕ → Errno → Cmd M Ssize
  unfolding mutex_unlock
  unlock_and_fail i e = do mutex_unlock (dev_mutex i); pure (error e)

  unfoldable pub unlock_and_return : ℕ → ℕ → Cmd M Ssize
  unfolding mutex_unlock
  unlock_and_return i n = do mutex_unlock (dev_mutex i); pure (size n)

  -- One word of an array of a device, by its index.
  unfoldable pub load_word : ℕ → Bar → ℕ → Cmd M ℕ
  unfolding in_bounds get_device
  load_word i b k = do
    in_bounds (ltb (k * 4) (bar_size b))
    d ← get_device i
    pure (bar_words b d k)

  unfoldable pub store_word : ℕ → Bar → ℕ → ℕ → Cmd M (Unit {0})
  unfolding in_bounds get_device put_device
  store_word i b k v = do
    in_bounds (ltb (k * 4) (bar_size b))
    d ← get_device i
    put_device i (set_bar_word b k v d)

module _ {M : Type 0} ⦃host : Host M⦄ where
  unfoldable pub copy_from_user : ℕ → ℕ → Cmd M (List ℕ × ℕ)
  copy_from_user a n s = ok (host.copy_from_user s.user a n) s

  -- The number of bytes that could not be copied.
  unfoldable pub copy_to_user : ℕ → List ℕ → Cmd M ℕ
  copy_to_user a bs s =
      let (m, left) = host.copy_to_user s.user a bs in ok left (record s { user = m })
