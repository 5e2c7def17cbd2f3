-- ===== src/Examples.antt =====
-- A machine on which the theorems are applied: the memory of the process is a function from the
-- address, every copy succeeds, and the options of the proc file have one digit.
pub mod Requests
pub mod Transfers
pub mod Boards
pub mod Clients
pub mod Commands
pub mod Startup
pub mod Worlds
pub mod Threads
use pciedummy_driver.Common.{
  ℕ, zero, suc, ◌+◌, ◌*◌, ◌/◌, ◌%◌, ◌≤◌, ◌<◌, ◌≡◌, ◌≢◌, refl, ◌⊎◌, ap, false, Bool, Option, none,
  some, List, [], ◌∷◌, ◌==◌, if◌then◌else◌, arith, length, update, update_ne, update_self, true,
  inl, inr, ◌∙◌, sym,
}
use pciedummy_driver.Common.Bytes.{AreBytes}
use pciedummy_driver.State.{MtcaDummyData, MtcaDummyControl}
use pciedummy_driver.Kernel.{Host, Sys}
use pciedummy_driver.Kernel.Laws.{IsReady}

abbrev pub Memory : Type 0
Memory = ℕ → ℕ

abbrev pub load_bytes : Memory → ℕ → ℕ → List ℕ
load_bytes m a zero = []
load_bytes m a (suc n) = m a % 256 ∷ load_bytes m (a + 1) n

abbrev pub store_bytes : Memory → ℕ → List ℕ → Memory
store_bytes m a [] = m
store_bytes m a (b ∷ bs) = update (store_bytes m (a + 1) bs) a b

load_bytes-filled :
    (m : Memory) (a n : ℕ) → (length (load_bytes m a n) ≡ n) × AreBytes (load_bytes m a n)
load_bytes-filled m a zero = (refl, tt)
load_bytes-filled m a (suc n) =
    let rest = load_bytes-filled m (a + 1) n in (ap suc rest.0, (omega arith, rest.1))

load_bytes-same :
    (m m' : Memory) (a n : ℕ)
    → ((k : ℕ) → a ≤ k → k < a + n → m k ≡ m' k)
    → load_bytes m a n ≡ load_bytes m' a n
load_bytes-same m m' a zero h = refl
load_bytes-same m m' a (suc n) h =
    rw
      (
        h a (omega arith) (omega arith),
        load_bytes-same m m' (a + 1) n λ k p q. h k (omega arith) (omega arith),
      )
      refl

store_bytes-outside :
    (m : Memory) (a k : ℕ) (bs : List ℕ)
    → (k < a) ⊎ (a + length bs ≤ k)
    → store_bytes m a bs k ≡ m k
store_bytes-outside m a k [] h = refl
store_bytes-outside m a k (b ∷ bs) h = ground (arith, store_bytes-outside m (a + 1) k bs)

load_bytes-store_bytes :
    (m : Memory) (a : ℕ) (bs : List ℕ)
    → AreBytes bs
    → load_bytes (store_bytes m a bs) a (length bs) ≡ bs
load_bytes-store_bytes m a [] h = refl
load_bytes-store_bytes m a (b ∷ bs) h =
    let rest =
      load_bytes-same (store_bytes m a (b ∷ bs)) (store_bytes m (a + 1) bs) (a + 1) (length bs)
        (λ k p q. ground arith)
      ∙ load_bytes-store_bytes m (a + 1) bs h.1 in
    ground (arith, rest)

-- `%i` for one decimal digit, behind a prefix.
abbrev pub digit : List ℕ → Option ℕ
digit [] = none
digit (c ∷ cs) =
    if c == 48 then some 0 else if c == 49 then some 1 else if c == 50 then some 2 else none

abbrev pub scan_digit : List ℕ → List ℕ → Option ℕ
scan_digit [] token = digit token
scan_digit (p ∷ ps) [] = none
scan_digit (p ∷ ps) (c ∷ cs) = if p == c then scan_digit ps cs else none

instance abbrev machine : Host Memory
machine = record {
  version = record { maj = 3; min = 14 };
  access_ok = λ m a n. true;
  copy_from_user = λ m a n. (load_bytes m a n, 0);
  copy_to_user = λ m a bs. (store_bytes m a bs, 0);
  iowr_int = λ t n. t * 256 + n;
  ioc_type = λ c. c / 256;
  ioc_nr = λ c. c % 256;
  ioc_size = λ c. 4;
  sscanf_int = scan_digit;
  version_is_words = (omega arith, omega arith);
  filled = load_bytes-filled;
  copied = λ m a bs bytes done. ap (λ l. (l, 0)) (load_bytes-store_bytes m a bs bytes);
  outside = λ m a b n bs apart.
      ap (λ l. (l, 0))
        (load_bytes-same (store_bytes m a bs) m b n λ k p q.
          store_bytes-outside m a k bs
            (elim apart [ inl h ↦ inl (omega arith) | inr h ↦ inr (omega arith) ]));
  ioc_type-iowr_int = λ t n p q. omega arith;
  ioc_nr-iowr_int = λ t n p q. omega arith;
}

abbrev pub no_failures : MtcaDummyControl
no_failures = record {
  open_error = false;
  read_error = false;
  write_error = false;
  spi_error = false;
}

-- Device `i`, not opened, each word of its bars the word's index.
abbrev pub device : ℕ → MtcaDummyData
device i = record {
  in_use = 0;
  slot_nr = i;
  minor = i;
  major = 240;
  system_bar = λ k. k;
  dma_bar = λ k. k;
}

abbrev pub state_with : Memory → Sys Memory
state_with m = record { control = no_failures; devices = device; held = []; signals = []; user = m }

pub state_with-IsReady : (m : Memory) → IsReady (state_with m)
state_with-IsReady m = record { free = refl; slots = λ i h. refl }
