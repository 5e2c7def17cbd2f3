-- ===== src/Common/Bytes.antt =====
-- 32-bit words and their bytes in memory, the lowest byte first as on the x86 machines that the
-- driver is built for.
use pciedummy_driver.Common.Arrays.{length, get_or}
use Prim.Native.Nat.{ℕ, zero, suc, ◌+◌, ◌*◌, ◌/◌, ◌%◌, ◌^◌, ◌<◌}
use mathlib.Core.Path.{◌≡◌, refl, ap}
use mathlib.Core.List.{List, [], ◌∷◌}
use native.Mathlib.Omega.{arith}

-- The wrap of unsigned 32-bit arithmetic.
abbrev pub u32 : ℕ → ℕ
u32 n = n % 2 ^ 32

abbrev pub bytes_of_word : ℕ → List ℕ
bytes_of_word w = w % 256 ∷ w / 256 % 256 ∷ w / 65536 % 256 ∷ w / 16777216 % 256 ∷ []

-- The word that stands at byte `k` of a buffer.
abbrev pub word_at : List ℕ → ℕ → ℕ
word_at bs k =
    get_or bs k 0
    + 256 * get_or bs (k + 1) 0
    + 65536 * get_or bs (k + 2) 0
    + 16777216 * get_or bs (k + 3) 0

-- The byte at offset `k` of an array of words.
abbrev pub byte_of : (ℕ → ℕ) → ℕ → ℕ
byte_of a k = a (k / 4) / 256 ^ (k % 4) % 256

-- `n` bytes of an array of words, from byte `k` on.
pub bytes_from : (ℕ → ℕ) → ℕ → ℕ → List ℕ
bytes_from a k zero = []
bytes_from a k (suc n) = byte_of a k ∷ bytes_from a (k + 1) n

pub length-bytes_from : (a : ℕ → ℕ) (k n : ℕ) → length (bytes_from a k n) ≡ n
unfolding bytes_from
length-bytes_from a k zero = refl
length-bytes_from a k (suc n) = ap suc (length-bytes_from a (k + 1) n)

pub word_at-bytes_of_word : (w : ℕ) → w < 2 ^ 32 → word_at (bytes_of_word w) 0 ≡ w
word_at-bytes_of_word w h = omega arith

abbrev pub AreBytes : List ℕ → Type 0
AreBytes [] = Unit
AreBytes (b ∷ bs) = (b < 256) × AreBytes bs

pub bytes_from-AreBytes : (a : ℕ → ℕ) (k n : ℕ) → AreBytes (bytes_from a k n)
unfolding bytes_from
bytes_from-AreBytes a k zero = tt
bytes_from-AreBytes a k (suc n) = (omega arith, bytes_from-AreBytes a (k + 1) n)

get_or_small : (bs : List ℕ) (k : ℕ) → AreBytes bs → get_or bs k 0 < 256
get_or_small [] k h = omega arith
get_or_small (b ∷ bs) zero h = h.0
get_or_small (b ∷ bs) (suc k) h = get_or_small bs k h.1

pub word_at_small : (bs : List ℕ) (k : ℕ) → AreBytes bs → word_at bs k < 2 ^ 32
word_at_small bs k h = omega (
  arith,
  get_or_small bs k h,
  get_or_small bs (k + 1) h,
  get_or_small bs (k + 2) h,
  get_or_small bs (k + 3) h,
)
