-- ===== src/Examples/Transfers.antt =====
-- Transfers without a structure, on the machine of the examples: two words of bar 2 from offset 8.
use pciedummy_driver.Common.{ℕ, ◌+◌, ◌*◌, ◌^◌, ◌≡◌, refl, arith}
use pciedummy_driver.Kernel.{Sys}
use pciedummy_driver.Kernel.Laws.{Ends, ReadsOnly, ChangesBars}
use pciedummy_driver.NoStruct.{
  valid, check_and_calculate_transfer_information, mtca_dummy_read_no_struct,
  mtca_dummy_write_no_struct,
}
use pciedummy_driver.NoStruct.Check.{
  transfer_at, check_and_calculate_transfer_information_lem, IsWithin,
  check_and_calculate_transfer_information-IsWithin,
}
use pciedummy_driver.NoStruct.ReadOutcome.{Transferred}
use pciedummy_driver.NoStruct.Reads.{
  mtca_dummy_read_no_struct-Transferred, mtca_dummy_read_no_struct-ReadsOnly,
}
use pciedummy_driver.NoStruct.WriteDma.{Stored, mtca_dummy_write_no_struct-Stored}
use pciedummy_driver.NoStruct.WriteSafety.{mtca_dummy_write_no_struct-ChangesBars}
use pciedummy_driver.Examples.{Memory, machine, state_with, state_with-IsReady}

abbrev pub counting : Sys Memory
counting = state_with (λ a. a)

abbrev pub third_word : ℕ
third_word = 2 * 2 ^ 60 + 8

check_and_calculate_transfer_information_example :
    check_and_calculate_transfer_information 8 third_word ≡ valid (transfer_at 8 third_word)
check_and_calculate_transfer_information_example =
    check_and_calculate_transfer_information_lem 8 third_word (omega arith)

check_and_calculate_transfer_information-IsWithin_example :
    IsWithin 8 third_word (transfer_at 8 third_word)
check_and_calculate_transfer_information-IsWithin_example =
    check_and_calculate_transfer_information-IsWithin 8 third_word (transfer_at 8 third_word)
      (omega arith) (omega arith) check_and_calculate_transfer_information_example

mtca_dummy_read_no_struct-Transferred_example :
    Ends
      (Transferred 6 100 2 third_word (transfer_at 8 third_word) counting)
      (mtca_dummy_read_no_struct 6 100 8 third_word counting)
mtca_dummy_read_no_struct-Transferred_example =
    mtca_dummy_read_no_struct-Transferred 6 100 8 third_word counting (omega arith)
      (state_with-IsReady (λ a. a)) refl refl (omega arith) (omega arith) refl refl

mtca_dummy_read_no_struct-ReadsOnly_example :
    Ends (λ r t. ReadsOnly counting t) (mtca_dummy_read_no_struct 6 100 8 third_word counting)
mtca_dummy_read_no_struct-ReadsOnly_example =
    mtca_dummy_read_no_struct-ReadsOnly 6 100 8 third_word counting (omega arith)
      (state_with-IsReady (λ a. a)) (omega arith) (omega arith)

mtca_dummy_write_no_struct-Stored_example :
    Ends
      (λ r t.
        Stored 6 100 2 third_word (transfer_at 8 third_word) counting r t
        × (ChangesBars 6 counting t × (t.user ≡ (λ a. a))))
      (mtca_dummy_write_no_struct 6 100 8 third_word counting)
mtca_dummy_write_no_struct-Stored_example =
    mtca_dummy_write_no_struct-Stored 6 100 8 third_word counting (omega arith)
      (state_with-IsReady (λ a. a)) refl refl (omega arith) (omega arith) refl refl refl

mtca_dummy_write_no_struct-ChangesBars_example :
    Ends
      (λ r t. ChangesBars 6 counting t × (t.user ≡ (λ a. a)))
      (mtca_dummy_write_no_struct 6 100 8 third_word counting)
mtca_dummy_write_no_struct-ChangesBars_example =
    mtca_dummy_write_no_struct-ChangesBars 6 100 8 third_word counting (omega arith)
      (state_with-IsReady (λ a. a)) (omega arith) (omega arith)
