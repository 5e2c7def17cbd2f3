-- ===== src/Proc.antt =====
-- mtcadummy_proc.c: the sequence that lists the devices, the dump of one device, and the parser of
-- the options that are written to the proc file. What `seq_printf` formats is a list of lines with
-- the values that the format strings are given. An `int` is its 32-bit pattern, -1 included.
pub mod Flags
pub mod Parsing
pub mod Show
pub mod Traversal
use pciedummy_driver.Common.{
  ℕ, zero, suc, ◌+◌, ◌*◌, ◌-◌, ◌/◌, ◌^◌, Bool, not, Option, none, some, List, [], ◌∷◌, ◌++◌, ◌==◌,
  if◌then◌else◌, ltb, leb,
}
use Prim.Native.Nat.{min}
use pciedummy_driver.State.{
  MtcaDummyControl, mtcadummy_nr_devs, mtcadummy_n_registers, mtcadummy_dma_size, system_area,
  dma_area,
}
use pciedummy_driver.Kernel.{
  efault, erestartsys, ewouldblock, Ssize, error, size, control_mutex, dev_mutex, Host, Cmd, ok,
  pure, ◌>>=◌, ◌>>◌, gets, mutex_lock_interruptible, mutex_unlock, get_device, load_word,
  copy_from_user,
}

-- The position is the number of a device, and the element that it stands for that device; `none`
-- is the end of the sequence.
unfoldable pub mtcadummy_seq_start : ℕ → Option ℕ
mtcadummy_seq_start pos = if leb mtcadummy_nr_devs pos then none else some pos

unfoldable pub mtcadummy_seq_next : ℕ → Option ℕ × ℕ
mtcadummy_seq_next pos = (if leb mtcadummy_nr_devs (pos + 1) then none else some (pos + 1), pos + 1)

pub data Line : Type 0 where
  not_in_use : ℕ → Line
  system_bar_header : ℕ → Line
  register_line : ℕ → ℕ → Line
  dma_bar_header : ℕ → Line
  dma_line : ℕ → ℕ → ℕ → ℕ → ℕ → Line
  blank : Line

-- An option that is not given is -1; `is_given` is `> -1`.
abbrev pub minus_one : ℕ
minus_one = 2 ^ 32 - 1

abbrev pub is_given : ℕ → Bool
is_given v = ltb v (2 ^ 31)

pub record Options : Type 0 where
  pub open_option : ℕ
  pub read_option : ℕ
  pub write_option : ℕ
  pub spi_option : ℕ

abbrev pub no_options : Options
no_options = record {
  open_option = minus_one;
  read_option = minus_one;
  write_option = minus_one;
  spi_option = minus_one;
}

-- "open:", "read:", "write:" and "spi:".
abbrev pub open_prefix : List ℕ
open_prefix = b'o' ∷ b'p' ∷ b'e' ∷ b'n' ∷ b':' ∷ []

abbrev pub read_prefix : List ℕ
read_prefix = b'r' ∷ b'e' ∷ b'a' ∷ b'd' ∷ b':' ∷ []

abbrev pub write_prefix : List ℕ
write_prefix = b'w' ∷ b'r' ∷ b'i' ∷ b't' ∷ b'e' ∷ b':' ∷ []

abbrev pub spi_prefix : List ℕ
spi_prefix = b's' ∷ b'p' ∷ b'i' ∷ b':' ∷ []

-- The C string in a buffer: the bytes before the first zero.
unfoldable pub c_string : List ℕ → List ℕ
c_string [] = []
c_string (b ∷ bs) = if b == 0 then [] else b ∷ c_string bs

abbrev pub prepend : ℕ → List (List ℕ) → List (List ℕ)
prepend b [] = (b ∷ []) ∷ []
prepend b (t ∷ ts) = (b ∷ t) ∷ ts

-- The tokens that `strsep(&iter, " ")` returns one after the other.
unfoldable pub tokens : List ℕ → List (List ℕ)
tokens [] = [] ∷ []
tokens (b ∷ bs) = let rest = tokens bs in if b == b' ' then [] ∷ rest else prepend b rest

-- A flag is assigned, as a `bool`, if its option is given.
abbrev pub assign : ℕ → Bool → Bool
assign v old = if is_given v then not (v == 0) else old

unfoldable pub assign_options : Options → MtcaDummyControl → MtcaDummyControl
assign_options o c = record {
  open_error = assign o.open_option c.open_error;
  read_error = assign o.read_option c.read_error;
  write_error = assign o.write_option c.write_error;
  spi_error = assign o.spi_option c.spi_error;
}

-- The body of the `while` over the tokens, with `sscanf` as an argument.
unfoldable pub scan_token : (List ℕ → List ℕ → Option ℕ) → List ℕ → Options → Options
scan_token scan token o = elim (scan open_prefix token) [
  | some v ↦ record o { open_option = v }
  | none ↦ elim (scan read_prefix token) [
    | some v ↦ record o { read_option = v }
    | none ↦ elim (scan write_prefix token) [
      | some v ↦ record o { write_option = v }
      | none ↦ elim (scan spi_prefix token) [ some v ↦ record o { spi_option = v } | none ↦ o ]
    ]
  ]
]

unfoldable pub scan_tokens : (List ℕ → List ℕ → Option ℕ) → List (List ℕ) → Options → Options
scan_tokens scan [] o = o
scan_tokens scan (t ∷ ts) o = scan_tokens scan ts (scan_token scan t o)

-- The options in the buffer `cmd`; the last one of a name wins.
unfoldable pub options_of : (List ℕ → List ℕ → Option ℕ) → List ℕ → Options
options_of scan bs = scan_tokens scan (tokens (c_string bs)) no_options

-- The rounds of the loop `index = 0; index <= MTCADUMMY_DMA_SIZE / 4 - 4; index += 4`.
abbrev pub dma_rows : ℕ
dma_rows = mtcadummy_dma_size / 16

module _ {M : Type 0} where
  -- The lines of the registers from `reg` on, for the rounds that are left.
  unfoldable pub show_registers : ℕ → ℕ → ℕ → Cmd M (List Line)
  show_registers zero reg i = pure []
  show_registers (suc n) reg i = do
    w ← load_word i system_area reg
    rest ← show_registers n (reg + 1) i
    pure (register_line reg w ∷ rest)

  unfoldable pub show_dma : ℕ → ℕ → ℕ → Cmd M (List Line)
  show_dma zero index i = pure []
  show_dma (suc n) index i = do
    w0 ← load_word i dma_area index
    w1 ← load_word i dma_area (index + 1)
    w2 ← load_word i dma_area (index + 2)
    w3 ← load_word i dma_area (index + 3)
    rest ← show_dma n (index + 4) i
    pure (dma_line (index * 4) w0 w1 w2 w3 ∷ rest)

  -- The result and the lines that are printed.
  unfoldable pub mtcadummy_seq_show : ℕ → Cmd M (Ssize × List Line)
  mtcadummy_seq_show i = do
    d ← get_device i
    if d.in_use == 0 then pure (size 0, not_in_use d.slot_nr ∷ []) else do
      interrupted ← mutex_lock_interruptible (dev_mutex i)
      if interrupted then pure (error erestartsys, []) else do
        registers ← show_registers mtcadummy_n_registers 0 i
        rows ← show_dma dma_rows 0 i
        mutex_unlock (dev_mutex i)
        pure (
          size 0,
          system_bar_header d.slot_nr ∷ registers
              ++ (blank ∷ dma_bar_header d.slot_nr ∷ rows ++ (blank ∷ [])),
        )

  unfoldable pub set_control : MtcaDummyControl → Cmd M (Unit {0})
  set_control c s = ok tt (record s { control = c })

module _ {M : Type 0} ⦃host : Host M⦄ where
  unfoldable pub mtcadummy_proc_write : ℕ → ℕ → Cmd M Ssize
  mtcadummy_proc_write ubuf count = do
    (bs, left) ← copy_from_user ubuf (min count 254)
    if not (left == 0) then pure (error efault) else do
      interrupted ← mutex_lock_interruptible control_mutex
      if interrupted then pure (error ewouldblock) else do
        control ← gets (λ s. s.control)
        set_control (assign_options (options_of host.sscanf_int bs) control)
        mutex_unlock control_mutex
        pure (size count)
