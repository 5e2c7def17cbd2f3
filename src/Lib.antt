-- ===== src/Lib.antt =====
-- pciedummy-driver: a Linux driver whose devices live in memory. Seven character devices, four like
-- pciedev (0 to 3), one like llrfdrv (4), one without ioctl (5) and one like pcieuni (6), have two
-- bars each: 32 registers, some of them with a simulated firmware, and 4096 bytes called DMA. A
-- process reads and writes them by a structure (devices 0 to 4) or by the file position (device 6),
-- asks questions by ioctl, and injects failures and dumps the devices through /proc/mtcadummy.
--
-- The modules and the files that they model, in the repository's root:
-- State, mtcadummy.h: the data of a device (`MtcaDummyData`), the control data with the injected
--   failures, and the sizes. The arrays of a device are functions from the index of the word.
-- Kernel: what the handlers run on. A handler is a `Cmd`, a function from the state `Sys` to a
--   result with the new state, or to a `Fault`: a mutex taken twice, a mutex released that is not
--   held, or an access outside an array. The model tests the bound of each access to
--   `dummyPrivateData` and to the bars by an index that is computed from the caller's data; the
--   firmware's own accesses are at constants.
-- Firmware, mtcadummy_firmware.c and mtcadummy_firmware.h: the initial registers and the actions
--   on reading and writing. Firmware.Table has the register map of README.md as a table.
-- StructIo: `mtcaDummy_read` and `mtcaDummy_write` of mtcadummy_drv.c, with pciedev_io.h.
-- NoStruct, mtcadummy_rw_no_struct.c: the transfers by file position.
-- Ioctl: the three ioctl handlers of mtcadummy_drv.c, with llrfdrv_io_compat.h and
--   pcieuni_io_compat.h.
-- Files: opening and releasing, and the tables of file operations.
-- Proc, mtcadummy_proc.c: the dump, and the options that are written to the proc file.
-- ModuleInit: loading and unloading the module, as steps on the resources that it has.
-- Driver: the driver as a whole. `handler_of` selects the handler of a call by the table of its device,
--   and `Step` is one call from start to return, or what processes do between calls. A file of a
--   device whose table has no `open` (device 5) is opened and closed by Linux alone.
-- Board: what a process may expect of a device, two arrays of words that are read and written one at a
--   time by the register map. The handlers of StructIo and NoStruct are compared with it.
-- AutomaticTest, automatic_test: the C++ class `ReaderWriter` with its two implementations
--   (AutomaticTest.StructReaderWriter, AutomaticTest.NormalReaderWriter), which call the handlers
--   through the system calls, and the tests of testMtcaDummy.cpp (AutomaticTest.MtcaDummyTest). What
--   the class promises is the record `Serves` of AutomaticTest.Contract: each operation is the
--   board's. The tests know a class by `Serves` alone. AutomaticTest.Runs has sequences of
--   operations.
-- Threads: the handlers once more, as sequences of single operations (`Steps`), and n threads that
--   run them at the same time, one operation of one thread after another in any order
--   (Threads.System). Threads.Discipline has the locking rules of the driver (and that only 32-bit
--   words are stored), Threads.Guarded that the handlers keep to them, and Threads.Runs compares the
--   sequences with the handlers of the other modules. Threads.System.Loaded has the machine of a driver
--   that has just been loaded.
-- Examples: a concrete machine, on which the theorems with hypotheses are applied.
-- StructIo and NoStruct call Firmware while they hold the mutex of the device; Firmware and all
-- handlers read the control data under its mutex, which Proc changes. A device number selects the
-- handlers through the tables of Files, and ModuleInit makes the state in which Driver begins.
--
-- A C `u32` is a natural number, and its sums are taken modulo 2 ^ 32 where the source adds two of
-- them; positions and sizes are 64 bits wide. The loops are structural recursions on the number of
-- rounds that are left, which the handlers compute from the source's bounds, so none needs fuel.
-- Mutexes are a list of what the thread holds. Whether a signal interrupts an attempt to take a mutex
-- is an input, the list `signals`. The modules up to Driver run a handler from start to return; in
-- Threads other threads come between its operations. There a mutex is not taken while another thread
-- holds it; each thread has its own view of the process's memory, which changes between its
-- operations in any way. An access of the two arrays of a device as a whole (a copy of DMA memory, an
-- action of the firmware) is one operation, as is an access of one word.
--
-- Parameters: the calls into Linux (`Host`: copies from and to the process, `access_ok`, the
-- encoding of ioctl commands, `sscanf` with one `%i`) and the numbers of the generated version.h,
-- with the documented laws that the theorems use. What Linux answers while the module is loaded is the
-- record `Answers`, with whether the proc file could be created, which the driver does not look at. `strsep`, `min` and the order of the bytes on x86 are written out. The check of
-- the argument's address is that of Linux 5.0 and later.
-- The process's memory is a parameter too. A load or a store of the C++ code in its own objects has the
-- effect of a copy by the kernel, and the addresses of its objects are arguments. `SystemCalls` is
-- Linux's part of `read`, `write`, `pread` and `pwrite`: a call of at most MAX_RW_COUNT bytes whose
-- handler returns, and not with a restart, has the handler's effect, and a negative result is -1. An
-- exception is a result, `none` or `false`.
-- Not modelled: log messages, the fields of `cdev`, the seq_file framework, sysfs names, the opening of files by their names (ReaderWriter.cc), and the older
-- program in test.
pub mod Common
pub mod State
pub mod Kernel
pub mod Firmware
pub mod StructIo
pub mod NoStruct
pub mod Files
pub mod Ioctl
pub mod Proc
pub mod ModuleInit
pub mod Driver
pub mod Board
pub mod AutomaticTest
pub mod Threads
pub mod Examples
