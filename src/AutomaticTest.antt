-- ===== src/AutomaticTest.antt =====
-- automatic_test: the C++ classes that read and write a device file, and the test programs. They
-- run in the process: its memory is the memory of the model, and an object of theirs is a range of
-- addresses. A load or a store of the process has the effect of a copy by the kernel.
-- Linux's part in the system calls is a parameter, an instance of `SystemCalls`.
pub mod Agreement
pub mod Contract
pub mod MtcaDummyTest
pub mod NormalPositions
pub mod NormalReaderWriter
pub mod NormalReadHandler
pub mod NormalReads
pub mod NormalServes
pub mod NormalWriteHandler
pub mod NormalWrites
pub mod Runs
pub mod StructReaderWriter
pub mod StructServes
pub mod StructReadArea
pub mod StructRefines
pub mod StructWriteArea
use pciedummy_driver.Common.{
  ℕ, ◌+◌, ◌*◌, ◌^◌, ◌≤◌, ◌<◌, ◌≡◌, refl, ◌⊎◌, Bool, true, false, Option, none, some, List, inl, inr,
  ◌==◌, if◌then◌else◌, arith,
}
use pciedummy_driver.Common.Bytes.{bytes_of_word, word_at}
use pciedummy_driver.State.{MtcaDummyControl}
use pciedummy_driver.Kernel.{Ssize, Host, Sys, Run, ok, fault, Cmd, pure, ◌>>=◌, ◌>>◌}
use pciedummy_driver.Kernel.Laws.{Ends, IsCalm, count_of, is_restart}
use pciedummy_driver.Board.{Board, board_of}
use pciedummy_driver.Driver.{Call, read_file, write_file, handler_of}
use pciedummy_driver.NoStruct.ReadWords.{IsWritable}

-- The most bytes that Linux passes on in one call (MAX_RW_COUNT).
abbrev pub max_rw_count : ℕ
max_rw_count = 0x7ffff000

-- `pread` and `pwrite` on an open file of device `i`; `none` stands for -1. `read` and `write` are
-- those at position 0, where the handlers of a device with structures leave the file.
pub record SystemCalls (M : Type 0) ⦃host : Host M⦄ : Type 0 where
  pub pread : (i buf count pos : ℕ) → Cmd M (Option ℕ)
  pub pwrite : (i buf count pos : ℕ) → Cmd M (Option ℕ)
  -- A call that Linux neither limits nor refuses nor restarts is a call of the driver's handler.
  pub pread_returns :
      (i buf count pos : ℕ) (handler : Cmd M Ssize) (s : Sys M) (a : Ssize) (t : Sys M)
      → handler_of (read_file i buf count pos) ≡ some handler
      → count ≤ max_rw_count
      → pos + count < 2 ^ 63
      → host.access_ok s.user buf count ≡ true
      → handler s ≡ ok a t
      → is_restart a ≡ false
      → pread i buf count pos s ≡ ok (count_of a) t
  pub pwrite_returns :
      (i buf count pos : ℕ) (handler : Cmd M Ssize) (s : Sys M) (a : Ssize) (t : Sys M)
      → handler_of (write_file i buf count pos) ≡ some handler
      → count ≤ max_rw_count
      → pos + count < 2 ^ 63
      → host.access_ok s.user buf count ≡ true
      → handler s ≡ ok a t
      → is_restart a ≡ false
      → pwrite i buf count pos s ≡ ok (count_of a) t

-- The operations of the class `ReaderWriter`; `none` and `false` stand for a DeviceIOException. The
-- buffer of an area is given by its address.
pub record ReaderWriter (M : Type 0) : Type 0 where
  pub read_single : (offset bar : ℕ) → Cmd M (Option ℕ)
  pub read_area : (offset bar n_words buf : ℕ) → Cmd M Bool
  pub write_single : (offset bar value : ℕ) → Cmd M Bool
  pub write_area : (offset bar n_words buf : ℕ) → Cmd M Bool

-- The count that a call returned is the one that was asked for.
abbrev pub is_count : Option ℕ → ℕ → Bool
is_count none n = false
is_count (some k) n = k == n

-- The ranges have no byte in common.
abbrev pub Apart : (a n b k : ℕ) → Type 0
Apart a n b k = (b + k ≤ a) ⊎ (a + n ≤ b)

-- The process has `n` bytes of its own from `a` on.
pub record IsObject {M : Type 0} (host : Host M) (a n : ℕ) : Type 0 where
  pub writable : IsWritable host a n
  pub readable : (m : M) (b k : ℕ) → a ≤ b → b + k ≤ a + n → (host.copy_from_user m b k).1 ≡ 0
  pub accessible : (m : M) (b k : ℕ) → a ≤ b → b + k ≤ a + n → host.access_ok m b k ≡ true

module _ {M : Type 0} ⦃host : Host M⦄ where
  unfoldable pub store : ℕ → List ℕ → Cmd M (Unit {0})
  store a bs s = ok tt (record s { user = (host.copy_to_user s.user a bs).0 })

  unfoldable pub load : ℕ → ℕ → Cmd M (List ℕ)
  load a n s = ok (host.copy_from_user s.user a n).0 s

  -- `t` follows on `s`, and the board of device `i` is `b` in it.
  pub record Follows (i : ℕ) (b : Board) (s t : Sys M) : Type 0 where
    pub calm : IsCalm t
    pub control : t.control ≡ s.control
    pub board : board_of (t.devices i) ≡ b

  -- At most the `n` bytes from `a` on have changed.
  abbrev pub ChangesAt : ℕ → ℕ → Sys M → Sys M → Type 0
  ChangesAt a n s t =
      (b k : ℕ) → Apart a n b k → host.copy_from_user t.user b k ≡ host.copy_from_user s.user b k

  -- Two ways to return one of two results.
  pub Ends-if :
      {A : Type 0} (P : A → Sys M → Type 0) (b : Bool) (x y : A) (t : Sys M)
      → P (if b then x else y) t
      → Ends P ((if b then pure x else pure y) t)
  Ends-if P true x y t p = p
  Ends-if P false x y t p = p

  -- A system call ends as the handler ends.
  abbrev pub Called : (Ssize → Sys M → Type 0) → Option ℕ → Sys M → Type 0
  Called P n t = (a : Ssize) × (P a t) × (n ≡ count_of a)

  module _ ⦃calls : SystemCalls M⦄ (i buf count pos : ℕ) (handler : Cmd M Ssize) (s : Sys M)
      (limited : count ≤ max_rw_count) (range : pos + count < 2 ^ 63)
      (accessible : host.access_ok s.user buf count ≡ true) where
    pub pread_ends :
        (P : Ssize → Sys M → Type 0)
        → handler_of (read_file i buf count pos) ≡ some handler
        → Ends (λ a t. P a t × (is_restart a ≡ false)) (handler s)
        → Ends (Called P) (calls.pread i buf count pos s)
    pread_ends P is_handler ends = go (handler s) refl ends
      where
        go :
            (r : Run M Ssize)
            → handler s ≡ r
            → Ends (λ a t. P a t × (is_restart a ≡ false)) r
            → Ends (Called P) (calls.pread i buf count pos s)
        go (ok a t) e (p, fresh) =
            rw
              (calls.pread_returns i buf count pos handler s a t is_handler limited range accessible
                e fresh)
              (a, p, refl)
        go (fault f) e p = elim p [ ]

    pub pwrite_ends :
        (P : Ssize → Sys M → Type 0)
        → handler_of (write_file i buf count pos) ≡ some handler
        → Ends (λ a t. P a t × (is_restart a ≡ false)) (handler s)
        → Ends (Called P) (calls.pwrite i buf count pos s)
    pwrite_ends P is_handler ends = go (handler s) refl ends
      where
        go :
            (r : Run M Ssize)
            → handler s ≡ r
            → Ends (λ a t. P a t × (is_restart a ≡ false)) r
            → Ends (Called P) (calls.pwrite i buf count pos s)
        go (ok a t) e (p, fresh) =
            rw
              (calls.pwrite_returns i buf count pos handler s a t is_handler limited range
                accessible e fresh)
              (a, p, refl)
        go (fault f) e p = elim p [ ]
