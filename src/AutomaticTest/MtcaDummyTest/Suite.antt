-- ===== src/AutomaticTest/MtcaDummyTest/Suite.antt =====
-- All tests in order, for both classes.
use pciedummy_driver.Common.{ℕ, ◌<◌, ◌≡◌, refl, Bool, true, some}
use pciedummy_driver.State.{mtcadummy_dmmy_as_ascii}
use pciedummy_driver.Kernel.{Host, Sys}
use pciedummy_driver.Kernel.Laws.{Ends, Ends-bind, IsCalm}
use pciedummy_driver.Files.{file_ops_of, with_struct, no_struct}
use pciedummy_driver.AutomaticTest.{ReaderWriter, SystemCalls, IsObject}
use pciedummy_driver.AutomaticTest.Contract.{Serves}
use pciedummy_driver.AutomaticTest.StructReaderWriter.{struct_reader_writer}
use pciedummy_driver.AutomaticTest.StructServes.{struct_reader_writer-Serves}
use pciedummy_driver.AutomaticTest.NormalReaderWriter.{normal_reader_writer}
use pciedummy_driver.AutomaticTest.NormalServes.{normal_reader_writer-Serves}
use pciedummy_driver.AutomaticTest.MtcaDummyTest.{
  mtca_dummy_test, test_read_single, test_read_single_with_error, test_write_single,
  test_write_single_with_error, test_read_area, test_write_area, mtca_dummy_test_suite,
}
use pciedummy_driver.AutomaticTest.MtcaDummyTest.Prepared.{
  Layout, Keeps-Prepared, mtca_dummy_test_ends, test_read_single-Passes,
}
use pciedummy_driver.AutomaticTest.MtcaDummyTest.Registers.{
  test_read_single_with_error-Passes, test_write_single-Passes, test_write_single_with_error-Passes,
}
use pciedummy_driver.AutomaticTest.MtcaDummyTest.AreaTests.{test_read_area_passes}
use pciedummy_driver.AutomaticTest.MtcaDummyTest.WriteArea.{test_write_area_passes}

module _ {M : Type 0} ⦃host : Host M⦄ (i a n helix expected buf : ℕ) (client : ReaderWriter M)
    (serves : Serves i a n client) (layout : Layout host a n helix expected buf) where
  abbrev pub Passed : Bool → Sys M → Type 0
  Passed passed t = passed ≡ true

  suite_passes :
      (s : Sys M)
      → IsCalm s
      → (s.devices i).system_bar 15 ≡ mtcadummy_dmmy_as_ascii
      → Ends (λ passed t. passed ≡ true) (mtca_dummy_test_suite client helix expected buf s)
  unfolding mtca_dummy_test_suite
  suite_passes s calm dummy =
      Ends-bind Passed (mtca_dummy_test client helix s) _
        (mtca_dummy_test_ends i a n helix expected buf client serves layout s calm dummy)
        λ ready s0 (e, p0, word). rw e (
          Ends-bind Passed (test_read_single client s0) _
            (test_read_single-Passes i a n helix expected buf client serves layout s0 p0 word)
            λ r1 s1 (e1, k1).
              let p1 = Keeps-Prepared i a n helix expected buf client serves layout s0 s1 k1 p0 in
              Ends-bind Passed (test_read_single_with_error client s1) _
                (test_read_single_with_error-Passes i a n client serves s1 p1.calm)
                λ r2 s2 (e2, k2).
                  let p2 =
                    Keeps-Prepared i a n helix expected buf client serves layout s1 s2 k2 p1 in
                  Ends-bind Passed (test_write_single client s2) _
                    (test_write_single-Passes i a n client serves s2 p2.calm)
                    λ r3 s3 (e3, k3).
                      let p3 =
                        Keeps-Prepared i a n helix expected buf client serves layout s2 s3 k3 p2 in
                      Ends-bind Passed (test_write_single_with_error client s3) _
                        (test_write_single_with_error-Passes i a n client serves s3 p3.calm)
                        λ r4 s4 (e4, k4).
                          Ends-bind Passed (test_read_area client buf s4) _
                            (test_read_area_passes i a n helix expected buf client serves layout s4
                              (Keeps-Prepared i a n helix expected buf client serves layout s3 s4 k4
                                p3))
                            λ r5 s5 (e5, p5).
                              Ends-bind Passed (test_write_area client helix expected buf s5) _
                                (test_write_area_passes i a n helix expected buf client serves
                                  layout s5 p5)
                                λ r6 s6 e6. rw (e1, e2, e3, e4, e5, e6) refl)

module _ {M : Type 0} ⦃host : Host M⦄ ⦃calls : SystemCalls M⦄ where
  -- On a device below 7 whose table has the handlers with structures, in a calm state (IsCalm) with
  -- WORD_DUMMY as it was initialised, with the local structure and the three vectors separate
  -- objects of the process (Layout), all six tests of MtcaDummyTestSuite pass for a
  -- StructReaderWriter.
  pub struct_mtca_dummy_test_suite_passes :
      (i a helix expected buf : ℕ) (s : Sys M)
      → i < 7
      → (file_ops_of i).read ≡ some with_struct
      → (file_ops_of i).write ≡ some with_struct
      → IsObject host a 24
      → Layout host a 24 helix expected buf
      → IsCalm s
      → (s.devices i).system_bar 15 ≡ mtcadummy_dmmy_as_ascii
      → Ends
          (λ passed t. passed ≡ true)
          (mtca_dummy_test_suite (struct_reader_writer i a) helix expected buf s)
  struct_mtca_dummy_test_suite_passes i a helix expected buf s hi reads writes object layout calm
        dummy =
      suite_passes i a 24 helix expected buf (struct_reader_writer i a)
        (struct_reader_writer-Serves i a hi reads writes object) layout s calm dummy

  -- On a device below 7 whose table has the handlers without structures, in a calm state (IsCalm)
  -- with WORD_DUMMY as it was initialised, with the local word and the three vectors separate
  -- objects of the process (Layout), all six tests of MtcaDummyTestSuite pass for a
  -- NormalReaderWriter.
  pub normal_mtca_dummy_test_suite_passes :
      (i a helix expected buf : ℕ) (s : Sys M)
      → i < 7
      → (file_ops_of i).read ≡ some no_struct
      → (file_ops_of i).write ≡ some no_struct
      → IsObject host a 4
      → Layout host a 4 helix expected buf
      → IsCalm s
      → (s.devices i).system_bar 15 ≡ mtcadummy_dmmy_as_ascii
      → Ends
          (λ passed t. passed ≡ true)
          (mtca_dummy_test_suite (normal_reader_writer i a) helix expected buf s)
  normal_mtca_dummy_test_suite_passes i a helix expected buf s hi reads writes object layout calm
        dummy =
      suite_passes i a 4 helix expected buf (normal_reader_writer i a)
        (normal_reader_writer-Serves i a hi reads writes object) layout s calm dummy
