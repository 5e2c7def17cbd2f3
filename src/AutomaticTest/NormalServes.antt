-- ===== src/AutomaticTest/NormalServes.antt =====
-- The contract of the class `ReaderWriter`, filled for NormalReaderWriter.cc.
use pciedummy_driver.Common.{ℕ, ◌<◌, ◌≡◌, refl, some}
use pciedummy_driver.Kernel.{Host}
use pciedummy_driver.Kernel.Laws.{Ends-mono}
use pciedummy_driver.Files.{file_ops_of, no_struct}
use pciedummy_driver.AutomaticTest.{SystemCalls, IsObject}
use pciedummy_driver.AutomaticTest.Contract.{Serves}
use pciedummy_driver.AutomaticTest.NormalReaderWriter.{normal_reader_writer, write_area, read_area}
use pciedummy_driver.AutomaticTest.NormalReads.{read_single_ends, read_area_ends}
use pciedummy_driver.AutomaticTest.NormalWrites.{write_single_ends, write_area_ends}

pub normal_reader_writer-Serves :
    {M : Type 0} ⦃host : Host M⦄ ⦃calls : SystemCalls M⦄ (i a : ℕ)
    → i < 7
    → (file_ops_of i).read ≡ some no_struct
    → (file_ops_of i).write ≡ some no_struct
    → IsObject host a 4
    → Serves {M = M} i a 4 (normal_reader_writer i a)
unfolding normal_reader_writer
normal_reader_writer-Serves i a hi reads writes object = record {
  reads_single =
      λ offset bar s calm ho hb. read_single_ends i a hi reads offset bar s calm ho object;
  writes_single = λ offset bar value s calm ho hb hv.
      write_single_ends i a hi writes offset bar value s calm ho hv object;
  reads_area = λ offset bar n_words buf s calm ho hb some_word few buffer apart.
      Ends-mono (read_area i a offset bar n_words buf s)
        (read_area_ends i a hi reads offset bar n_words buf s calm ho some_word few buffer)
        λ good t h. (h.0, h.1, h.2, λ c k p q. h.3 c k q);
  writes_area = λ offset bar n_words buf s calm ho hb some_word few buffer apart.
      Ends-mono (write_area i a offset bar n_words buf s)
        (write_area_ends i a hi writes offset bar n_words buf s calm ho some_word few buffer)
        λ good t h. (h.0, h.1, λ c k p. rw h.2 refl);
}
