-- ===== src/Firmware/Table.antt =====
-- The register map as a table: what a write of a value to an offset of bar 0 leaves in each word of
-- the two bars, and whether it succeeds. The table names words by their index. It follows README.md;
-- where that says nothing, as of WORD_CLK_RST after a sampling, or says "if set to 1", it follows the
-- behaviour of mtcadummy_firmware.c.
use mathlib.Core.Path.{subst}
use native.Mathlib.Decide.{ℕ_discrete}
use pciedummy_driver.Common.{
  ℕ, zero, suc, ◌+◌, ◌*◌, ◌/◌, ◌%◌, ◌<◌, ◌≡◌, ◌≢◌, sym, Bool, true, not, some, none, ◌&&◌, ◌||◌,
  arith, ◌==◌, if◌then◌else◌, ltb, update,
}
use pciedummy_driver.Common.Bytes.{u32}
use pciedummy_driver.State.{MtcaDummyData, system_area, set_bar_word}
use pciedummy_driver.Kernel.{Version, eperm}
use pciedummy_driver.Firmware.{
  clock_reset, dummy_sampling, adc_enable, spi_transfer, switch_on_write,
}

-- The words that a reset of the clock clears: the two counters and the four multiplexers.
abbrev pub is_clock_word : ℕ → Bool
is_clock_word k = (k == 4) || (k == 5) || (k == 8) || (k == 9) || (k == 10) || (k == 11)

-- Word `k` of the system bar after `x` is written at `offset` of a system bar `old`.
unfoldable pub system_word_after : Version → Bool → ℕ → ℕ → (ℕ → ℕ) → ℕ → ℕ
system_word_after v spi_fail offset x old k =
    let stored = if k == offset / 4 then x else old k in
    if offset == 0x40
    then (if not (x == 0) && is_clock_word k then 0 else stored)
    else if offset == 0x44
    then (if x == 0 then stored else if k == 4 then 25 else if k == 16 then 0 else stored)
    else if offset == 0
    then (if k == 0 then v.maj else old k)
    else if offset == 4
    then (if k == 1 then v.min else old k)
    else if offset == 0x3C
    then (if k == 15 then 0x444D4D59 else old k)
    else if offset == 0x50
    then (if (old 22 == 0xFF) && not spi_fail
        then (if k == 21 then x else if k == 22 then 0 else stored)
        else if k == 22
        then 0xAA
        else stored)
    else stored

-- Word `k` of the DMA bar.
unfoldable pub dma_word_after : ℕ → ℕ → (ℕ → ℕ) → ℕ → ℕ
dma_word_after offset x old k =
    if (offset == 0x44) && not (x == 0) && ltb k 25 then k * k else old k

unfoldable pub is_broken : ℕ → Bool
is_broken offset = (offset == 0x48) || (offset == 0x4C)

-- The loop writes the square of each index that it runs over, and no other word.
pub dummy_sampling-square :
    (n sample : ℕ) (bar : ℕ → ℕ) (k : ℕ)
    → dummy_sampling n sample bar k
      ≡ (if ltb k sample then bar k else if ltb k (sample + n) then u32 (k * k) else bar k)
unfolding dummy_sampling
dummy_sampling-square zero sample bar k = ground arith
dummy_sampling-square (suc n) sample bar k =
    ground
      (arith, dummy_sampling-square n (sample + 1) (update bar sample (u32 (sample * sample))) k)

square-small : (k : ℕ) → k < 25 → u32 (k * k) ≡ k * k
square-small k h = grind arith

-- The three actions with more than one register, on the words of the system bar.
module _ (d : MtcaDummyData) (k : ℕ) where
  clock_reset-system_bar :
      (clock_reset d).system_bar k
      ≡ (if not (d.system_bar 16 == 0) && is_clock_word k then 0 else d.system_bar k)
  unfolding clock_reset
  clock_reset-system_bar = ground arith

  adc_enable-system_bar : (adc_enable d).system_bar k ≡ (
      if d.system_bar 17 == 0
      then d.system_bar k
      else if k == 4
      then 25
      else if k == 16
      then 0
      else d.system_bar k)
  unfolding adc_enable
  adc_enable-system_bar = ground arith

  adc_enable-dma_bar :
      (adc_enable d).dma_bar k
      ≡ (if not (d.system_bar 17 == 0) && ltb k 25 then k * k else d.dma_bar k)
  unfolding adc_enable
  adc_enable-dma_bar = ground (arith, dummy_sampling-square 25 0 d.dma_bar k, square-small k)

  spi_transfer-system_bar :
      (spi_fail : Bool)
      → (spi_transfer spi_fail d).system_bar k ≡ (
          if (d.system_bar 22 == 0xFF) && not spi_fail
          then (if k == 22 then 0 else if k == 21 then d.system_bar 20 else d.system_bar k)
          else if k == 22
          then 0xAA
          else d.system_bar k)
  unfolding spi_transfer
  spi_transfer-system_bar spi_fail = ground arith

  -- The two actions of the system bar alone leave the DMA bar.
  clock_reset-dma_bar : (clock_reset d).dma_bar k ≡ d.dma_bar k
  unfolding clock_reset
  clock_reset-dma_bar = ground arith

  spi_transfer-dma_bar : (spi_fail : Bool) → (spi_transfer spi_fail d).dma_bar k ≡ d.dma_bar k
  unfolding spi_transfer
  spi_transfer-dma_bar spi_fail = ground arith

-- What the table says of one word, as an equation that the next lemmas prove offset by offset.
abbrev AgreesAt : Version → Bool → ℕ → MtcaDummyData → ℕ → ℕ → Type 0
AgreesAt v spi_fail x d k offset =
    (switch_on_write v spi_fail offset (set_bar_word system_area (offset / 4) x d)).1.system_bar k
    ≡ system_word_after v spi_fail offset x d.system_bar k

module _ (v : Version) (spi_fail : Bool) (x : ℕ) (d : MtcaDummyData) (k : ℕ) where
  agrees_clk_rst : AgreesAt v spi_fail x d k 0x40
  unfolding switch_on_write system_word_after
  agrees_clk_rst = ground (arith, clock_reset-system_bar (set_bar_word system_area 16 x d) k)

  agrees_adc_ena : AgreesAt v spi_fail x d k 0x44
  unfolding switch_on_write system_word_after
  agrees_adc_ena = ground (arith, adc_enable-system_bar (set_bar_word system_area 17 x d) k)

  agrees_firmware : AgreesAt v spi_fail x d k 0
  unfolding switch_on_write system_word_after
  agrees_firmware = ground arith

  agrees_compilation : AgreesAt v spi_fail x d k 4
  unfolding switch_on_write system_word_after
  agrees_compilation = ground arith

  agrees_dummy : AgreesAt v spi_fail x d k 0x3C
  unfolding switch_on_write system_word_after
  agrees_dummy = ground arith

  agrees_spi_write : AgreesAt v spi_fail x d k 0x50
  unfolding switch_on_write system_word_after
  agrees_spi_write =
      ground (arith, spi_transfer-system_bar (set_bar_word system_area 20 x d) k spi_fail)

  -- Each remaining offset: the value is stored and nothing else happens.
  agrees_elsewhere :
      (offset : ℕ)
      → offset ≢ 0x40
      → offset ≢ 0x44
      → offset ≢ 0
      → offset ≢ 4
      → offset ≢ 0x3C
      → offset ≢ 0x50
      → AgreesAt v spi_fail x d k offset
  unfolding switch_on_write system_word_after
  agrees_elsewhere offset h0 h1 h2 h3 h4 h5 = ground arith

  pub switch_on_write-system_bar : (offset : ℕ) → AgreesAt v spi_fail x d k offset
  switch_on_write-system_bar offset = by_offset agrees_clk_rst λ h0. by_offset agrees_adc_ena λ h1.
      by_offset agrees_firmware λ h2. by_offset agrees_compilation λ h3.
        by_offset agrees_dummy
          λ h4. by_offset agrees_spi_write λ h5. agrees_elsewhere offset h0 h1 h2 h3 h4 h5
    where
      by_offset :
          {c : ℕ}
          → AgreesAt v spi_fail x d k c
          → (offset ≢ c → AgreesAt v spi_fail x d k offset)
          → AgreesAt v spi_fail x d k offset
      by_offset {c} here elsewhere = elim (ℕ_discrete offset c) [
        | yes p ↦ subst (AgreesAt v spi_fail x d k) (sym p) here
        | no ne ↦ elsewhere ne
      ]

module _ (v : Version) (spi_fail : Bool) (offset x : ℕ) (d : MtcaDummyData) (k : ℕ) where
  abbrev stored : MtcaDummyData
  stored = set_bar_word system_area (offset / 4) x d

  pub switch_on_write-dma_bar :
      let d' = (switch_on_write v spi_fail offset (set_bar_word system_area (offset / 4) x d)).1 in
      d'.dma_bar k ≡ dma_word_after offset x d.dma_bar k
  unfolding switch_on_write dma_word_after
  switch_on_write-dma_bar = ground (
    arith,
    clock_reset-dma_bar stored k,
    adc_enable-dma_bar stored k,
    spi_transfer-dma_bar stored k spi_fail,
  )

pub switch_on_write-result :
    (v : Version) (spi_fail : Bool) (offset : ℕ) (d : MtcaDummyData)
    → (switch_on_write v spi_fail offset d).0 ≡ (if is_broken offset then some eperm else none)
unfolding switch_on_write is_broken
switch_on_write-result v spi_fail offset d = ground arith

-- The offsets of bar 0 whose content is not the value that was written last, or that cannot be
-- written without an error.
abbrev pub keeps_value : ℕ → ℕ → Bool
keeps_value barx offset =
    not (barx == 0)
    || not
        ((offset == 0) || (offset == 4) || (offset == 0x3C) || (offset == 0x48) || (offset == 0x4C))

pub system_word_kept :
    (v : Version) (spi_fail : Bool) (offset x : ℕ) (old : ℕ → ℕ)
    → offset % 4 ≡ 0
    → keeps_value 0 offset ≡ true
    → system_word_after v spi_fail offset x old (offset / 4) ≡ x
unfolding system_word_after
system_word_kept v spi_fail offset x old al keeps = ground arith
