-- ===== src/AutomaticTest/StructServes.antt =====
-- The contract of the class `ReaderWriter`, filled for StructReaderWriter.cc.
use pciedummy_driver.Common.{ℕ, ◌<◌, ◌≡◌, some}
use pciedummy_driver.Kernel.{Host}
use pciedummy_driver.Files.{file_ops_of, with_struct}
use pciedummy_driver.AutomaticTest.{SystemCalls, IsObject}
use pciedummy_driver.AutomaticTest.Contract.{Serves}
use pciedummy_driver.AutomaticTest.StructReaderWriter.{struct_reader_writer}
use pciedummy_driver.AutomaticTest.StructRefines.{read_single_ends, write_single_ends}
use pciedummy_driver.AutomaticTest.StructReadArea.{read_area_ends}
use pciedummy_driver.AutomaticTest.StructWriteArea.{write_area_ends}

pub struct_reader_writer-Serves :
    {M : Type 0} ⦃host : Host M⦄ ⦃calls : SystemCalls M⦄ (i a : ℕ)
    → i < 7
    → (file_ops_of i).read ≡ some with_struct
    → (file_ops_of i).write ≡ some with_struct
    → IsObject host a 24
    → Serves {M = M} i a 24 (struct_reader_writer i a)
unfolding struct_reader_writer
struct_reader_writer-Serves i a hi reads writes object = record {
  reads_single = λ offset bar s calm ho hb.
      read_single_ends i a hi reads writes object offset bar s calm ho hb;
  writes_single = λ offset bar value s calm ho hb hv.
      write_single_ends i a hi reads writes object offset bar value s calm ho hb hv;
  reads_area = λ offset bar n_words buf s calm ho hb some_word few buffer apart.
      read_area_ends i a hi reads writes object offset bar buf n_words hb buffer apart s calm ho;
  writes_area = λ offset bar n_words buf s calm ho hb some_word few buffer apart.
      write_area_ends i a hi reads writes object offset bar buf n_words hb apart s calm ho;
}
