-- ===== src/Examples/Requests.antt =====
-- Requests with a `device_rw` structure, on the machine of the examples.
use pciedummy_driver.Common.{ℕ, ◌^◌, ◌<◌, ◌≡◌, refl, true, false, [], ◌∷◌, if◌then◌else◌, arith}
use pciedummy_driver.State.{dma_area}
use pciedummy_driver.Kernel.{Sys, size, error, eio, fault, out_of_bounds, ◌>>=◌, ◌>>◌}
use pciedummy_driver.Kernel.Laws.{Ends, ReadsOnly, ChangesBars, process_writes}
use pciedummy_driver.Firmware.Table.{system_word_after, dma_word_after, is_broken}
use pciedummy_driver.StructIo.{
  select_bar, bad_offset, DeviceRw, bytes_of_rw, rw_of_bytes, mtca_dummy_read, mtca_dummy_write,
}
use pciedummy_driver.StructIo.Writes.{
  IsRequest, mtca_dummy_write-table, mtca_dummy_write_interrupted,
}
use pciedummy_driver.StructIo.Reads.{IsWords}
use pciedummy_driver.StructIo.ReadBack.{mtca_dummy_read-write}
use pciedummy_driver.StructIo.Safety.{
  mtca_dummy_read-ReadsOnly, mtca_dummy_read_overflow, mtca_dummy_write-ChangesBars,
}
use pciedummy_driver.Examples.{Memory, machine, store_bytes, state_with, state_with-IsReady}

abbrev request_at : ℕ → ℕ → ℕ → DeviceRw
request_at barx offset word = record {
  offset_rw = offset;
  data_rw = word;
  mode_rw = 2;
  barx_rw = barx;
  size_rw = 0;
  rsrvd_rw = 0;
}

-- The process's memory with the structure at address 100.
abbrev pub memory_with : DeviceRw → Memory
memory_with r = store_bytes (λ k. 0) 100 (bytes_of_rw r)

-- `MTCADUMMY_WORD_ADC_ENA` and the two requests for word 3 of the DMA bar.
abbrev pub adc_request : DeviceRw
adc_request = request_at 0 0x44 1

abbrev dma_word_request : DeviceRw
dma_word_request = request_at 2 12 77

abbrev pub dma_word_query : DeviceRw
dma_word_query = request_at 2 12 0

-- A DMA read whose size and offset wrap to 0.
abbrev wrapping_request : DeviceRw
wrapping_request = record {
  offset_rw = 4294963200;
  data_rw = 0;
  mode_rw = 3;
  barx_rw = 2;
  size_rw = 4096;
  rsrvd_rw = 0;
}

pub adc_request-IsRequest : IsRequest (state_with (memory_with adc_request)) 100 24 adc_request
unfolding bytes_of_rw rw_of_bytes
adc_request-IsRequest = record { covered = omega arith; readable = refl; stands = refl }

dma_word_request-IsRequest :
    IsRequest (state_with (memory_with dma_word_request)) 100 24 dma_word_request
unfolding bytes_of_rw rw_of_bytes
dma_word_request-IsRequest = record { covered = omega arith; readable = refl; stands = refl }

pub dma_word_query-IsRequest :
    IsRequest (state_with (memory_with dma_word_query)) 100 24 dma_word_query
unfolding bytes_of_rw rw_of_bytes
dma_word_query-IsRequest = record { covered = omega arith; readable = refl; stands = refl }

wrapping_request-IsRequest :
    IsRequest (state_with (memory_with wrapping_request)) 100 24 wrapping_request
unfolding bytes_of_rw rw_of_bytes
wrapping_request-IsRequest = record { covered = omega arith; readable = refl; stands = refl }

request_at-IsWords :
    (barx offset word : ℕ)
    → barx < 2 ^ 32
    → offset < 2 ^ 32
    → word < 2 ^ 32
    → IsWords (request_at barx offset word)
request_at-IsWords barx offset word hb ho hd = record {
  offset_rw = ho;
  data_rw = hd;
  mode_rw = omega arith;
  barx_rw = hb;
  size_rw = omega arith;
  rsrvd_rw = omega arith;
}

-- Word 10 of the bar of the DMA after the counter was enabled is 100.
mtca_dummy_write-table_example :
    Ends
      (λ a t.
        (a ≡ (if is_broken 0x44 then error eio else size 24))
        × ((t.devices 1).system_bar 4 ≡ system_word_after machine.version false 0x44 1 (λ k. k) 4)
        × ((t.devices 1).dma_bar 4 ≡ dma_word_after 0x44 1 (λ k. k) 4))
      (mtca_dummy_write 1 100 24 (state_with (memory_with adc_request)))
mtca_dummy_write-table_example =
    mtca_dummy_write-table 1 100 24 4 (state_with (memory_with adc_request)) adc_request
      (omega arith) (state_with-IsReady (memory_with adc_request)) refl refl adc_request-IsRequest
      refl refl refl (omega arith)

-- The same request, when a signal comes as the firmware takes its mutex.
abbrev signalled : Sys Memory
signalled = record (state_with (memory_with adc_request)) { signals = false ∷ false ∷ true ∷ [] }

mtca_dummy_write_interrupted_example :
    Ends
      (λ a t. (a ≡ error eio) × ((t.devices 1).system_bar 17 ≡ 1))
      (mtca_dummy_write 1 100 24 signalled)
mtca_dummy_write_interrupted_example =
    mtca_dummy_write_interrupted 1 100 24 signalled adc_request (omega arith)
      (record { free = refl; slots = λ i h. refl }) refl
      (record {
        covered = adc_request-IsRequest.covered;
        readable = adc_request-IsRequest.readable;
        stands = adc_request-IsRequest.stands;
      })
      refl refl refl refl (omega arith)

mtca_dummy_read-write_example :
    Ends
      (λ a t. (a ≡ size 24) × IsRequest t 100 24 (request_at 2 12 77))
      ((do
        written ← mtca_dummy_write 2 100 24
        process_writes (memory_with dma_word_query)
        mtca_dummy_read 2 100 24)
        (state_with (memory_with dma_word_request)))
unfolding select_bar bad_offset
mtca_dummy_read-write_example =
    mtca_dummy_read-write 2 100 24 100 24 (state_with (memory_with dma_word_request))
      (memory_with dma_word_query) dma_word_request dma_word_query dma_area (omega arith)
      (state_with-IsReady (memory_with dma_word_request)) refl refl refl dma_word_request-IsRequest
      refl refl refl refl dma_word_query-IsRequest refl refl refl
      (request_at-IsWords 2 12 77 (omega arith) (omega arith) (omega arith)) refl

mtca_dummy_read-ReadsOnly_example :
    Ends
      (λ a t. ReadsOnly (state_with (memory_with dma_word_query)) t)
      (mtca_dummy_read 2 100 24 (state_with (memory_with dma_word_query)))
mtca_dummy_read-ReadsOnly_example =
    mtca_dummy_read-ReadsOnly 2 100 24 (state_with (memory_with dma_word_query)) (omega arith)
      (state_with-IsReady (memory_with dma_word_query))
      (rw dma_word_query-IsRequest.stands (omega arith))

mtca_dummy_write-ChangesBars_example :
    Ends
      (λ a t.
        ChangesBars 1 (state_with (memory_with adc_request)) t × (t.user ≡ memory_with adc_request))
      (mtca_dummy_write 1 100 24 (state_with (memory_with adc_request)))
mtca_dummy_write-ChangesBars_example =
    mtca_dummy_write-ChangesBars 1 100 24 (state_with (memory_with adc_request)) (omega arith)
      (state_with-IsReady (memory_with adc_request))

mtca_dummy_read_overflow_example :
    mtca_dummy_read 3 100 24 (state_with (memory_with wrapping_request)) ≡ fault out_of_bounds
mtca_dummy_read_overflow_example =
    mtca_dummy_read_overflow 3 100 24 (state_with (memory_with wrapping_request)) wrapping_request
      (omega arith) (state_with-IsReady (memory_with wrapping_request)) refl refl
      wrapping_request-IsRequest refl (λ e. omega arith) (omega arith) (omega arith)
