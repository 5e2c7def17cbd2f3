-- ===== src/Examples/Clients.antt =====
-- The C++ classes of automatic_test on the machine of the examples: the structure and the local
-- word are at address 100, and a buffer of two words is at 200.
use pciedummy_driver.Common.{
  ℕ, ◌*◌, ◌≤◌, ◌≡◌, refl, true, inr, Option, some, none, List, [], ◌∷◌, arith, ◌==◌, if◌then◌else◌,
}
use pciedummy_driver.Kernel.{Ssize, Sys, Cmd, pure, ok, and_then}
use pciedummy_driver.Kernel.Laws.{Ends, IsCalm, count_of}
use pciedummy_driver.Files.{file_ops_of}
use pciedummy_driver.Board.{board_of}
use pciedummy_driver.Driver.{read_file, write_file, handler_of}
use pciedummy_driver.AutomaticTest.{SystemCalls, IsObject}
use pciedummy_driver.AutomaticTest.StructReaderWriter.{struct_reader_writer}
use pciedummy_driver.AutomaticTest.NormalReaderWriter.{normal_reader_writer}
use pciedummy_driver.AutomaticTest.Runs.{
  Op, read_word, write_word, write_buffer, AreOps, perform_all,
}
use pciedummy_driver.AutomaticTest.Agreement.{
  board_run, struct_reader_writer-board_perform_all, normal_reader_writer-board_perform_all,
  struct_reader_writer-normal_reader_writer,
}
use pciedummy_driver.AutomaticTest.MtcaDummyTest.{mtca_dummy_test_suite}
use pciedummy_driver.AutomaticTest.MtcaDummyTest.Prepared.{Layout}
use pciedummy_driver.AutomaticTest.MtcaDummyTest.Suite.{
  struct_mtca_dummy_test_suite_passes, normal_mtca_dummy_test_suite_passes,
}
use pciedummy_driver.State.{mtcadummy_dmmy_as_ascii}
use pciedummy_driver.Examples.{Memory, machine, device}
use pciedummy_driver.Examples.Transfers.{counting}
use pciedummy_driver.Examples.Boards.{state_with-IsCalm}

-- What the system call makes of a handler; without one it fails.
abbrev finish : Option (Cmd Memory Ssize) → Cmd Memory (Option ℕ)
finish none s = ok none s
finish (some handler) s = and_then (handler s) λ a. pure (count_of a)

finish_returns :
    (o : Option (Cmd Memory Ssize)) (handler : Cmd Memory Ssize) (s : Sys Memory) (a : Ssize)
    (t : Sys Memory)
    → o ≡ some handler
    → handler s ≡ ok a t
    → finish o s ≡ ok (count_of a) t
finish_returns o handler s a t e h = rw (e, h) refl

-- Linux passes every call on.
instance abbrev linux : SystemCalls Memory
linux = record {
  pread = λ i buf count pos. finish (handler_of (read_file i buf count pos));
  pwrite = λ i buf count pos. finish (handler_of (write_file i buf count pos));
  pread_returns = λ i buf count pos handler s a t e few range accessible h fresh.
      finish_returns (handler_of (read_file i buf count pos)) handler s a t e h;
  pwrite_returns = λ i buf count pos handler s a t e few range accessible h fresh.
      finish_returns (handler_of (write_file i buf count pos)) handler s a t e h;
}

object : (a n : ℕ) → IsObject machine a n
object a n = record {
  writable = λ m b bs below above. refl;
  readable = λ m b k below above. refl;
  accessible = λ m b k below above. refl;
}

-- A word of the registers is read, another one written, and two words are written to the end of the
-- bar of the DMA and over it.
abbrev ops : List Op
ops = read_word 12 0 ∷ write_word 0x44 0 1 ∷ write_buffer 4092 2 2 200 ∷ []

ops-AreOps : (n : ℕ) → n ≤ 100 → AreOps machine 100 n ops
ops-AreOps n h = (
  (omega arith, omega arith),
  (
    (omega arith, omega arith, omega arith),
    ((omega arith, omega arith, omega arith, omega arith, object 200 8, inr (omega arith)), tt),
  ),
)

struct_reader_writer-board_perform_all_example :
    Ends
      (λ rs t.
        (rs ≡ (board_run 0 ops counting).0)
        × (board_of (t.devices 0) ≡ (board_run 0 ops counting).1))
      (perform_all (struct_reader_writer 0 100) ops counting)
unfolding file_ops_of
struct_reader_writer-board_perform_all_example =
    struct_reader_writer-board_perform_all 0 100 ops counting (omega arith) refl refl
      (object 100 24) (state_with-IsCalm counting.user) (ops-AreOps 24 (omega arith))

normal_reader_writer-board_perform_all_example :
    Ends
      (λ rs t.
        (rs ≡ (board_run 6 ops counting).0)
        × (board_of (t.devices 6) ≡ (board_run 6 ops counting).1))
      (perform_all (normal_reader_writer 6 100) ops counting)
unfolding file_ops_of
normal_reader_writer-board_perform_all_example =
    normal_reader_writer-board_perform_all 6 100 ops counting (omega arith) refl refl (object 100 4)
      (state_with-IsCalm counting.user) (ops-AreOps 4 (omega arith))

struct_reader_writer-normal_reader_writer_example :
    Ends
      (λ rs t.
        Ends
          (λ rs' t'. (rs ≡ rs') × (board_of (t.devices 0) ≡ board_of (t'.devices 6)))
          (perform_all (normal_reader_writer 6 100) ops counting))
      (perform_all (struct_reader_writer 0 100) ops counting)
unfolding file_ops_of
struct_reader_writer-normal_reader_writer_example =
    struct_reader_writer-normal_reader_writer 0 6 100 100 ops counting counting (omega arith)
      (omega arith) refl refl refl refl (object 100 24) (object 100 4)
      (state_with-IsCalm counting.user) (state_with-IsCalm counting.user)
      (ops-AreOps 24 (omega arith)) (ops-AreOps 4 (omega arith)) refl refl refl

-- WORD_DUMMY has its value.
abbrev loaded : Sys Memory
loaded = record counting {
  devices =
      λ k. record (device k) { system_bar = λ w. if w == 15 then mtcadummy_dmmy_as_ascii else w };
}

loaded-IsCalm : IsCalm loaded
loaded-IsCalm = record {
  ready = record { free = refl; slots = λ i h. refl };
  no_signal = refl;
  no_read_failure = refl;
  no_write_failure = refl;
}

layout : (n : ℕ) → n ≤ 100 → Layout machine 100 n 5000 10000 20000
layout n h = record {
  helix_object = object 5000 (1024 * 4);
  expected_object = object 10000 (1024 * 4);
  buf_object = object 20000 (1024 * 4);
  helix_local = inr (omega (arith, h));
  expected_local = inr (omega (arith, h));
  buf_local = inr (omega (arith, h));
  helix_expected = inr (omega arith);
  helix_buf = inr (omega arith);
  expected_buf = inr (omega arith);
}

struct_mtca_dummy_test_suite_passes_example :
    Ends
      (λ passed t. passed ≡ true)
      (mtca_dummy_test_suite (struct_reader_writer 0 100) 5000 10000 20000 loaded)
unfolding file_ops_of
struct_mtca_dummy_test_suite_passes_example =
    struct_mtca_dummy_test_suite_passes 0 100 5000 10000 20000 loaded (omega arith) refl refl
      (object 100 24) (layout 24 (omega arith)) loaded-IsCalm refl

normal_mtca_dummy_test_suite_passes_example :
    Ends
      (λ passed t. passed ≡ true)
      (mtca_dummy_test_suite (normal_reader_writer 6 100) 5000 10000 20000 loaded)
unfolding file_ops_of
normal_mtca_dummy_test_suite_passes_example =
    normal_mtca_dummy_test_suite_passes 6 100 5000 10000 20000 loaded (omega arith) refl refl
      (object 100 4) (layout 4 (omega arith)) loaded-IsCalm refl
