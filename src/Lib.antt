-- ===== src/Lib.antt =====
-- The cyclic exchange of a LAN9252 EtherCAT slave on a Raspberry Pi: a model of the code, and what
-- is proved of it.
--
-- The program. Class rpi_base (rpi_base/src/rpi_base.cpp) talks to the chip over SPI and keeps the
-- process data: `send_output` puts four words of the application into a ring of ten buffers,
-- `MainTask` exchanges the data with the chip once a cycle, and `receive_input` gives the
-- application a copy of what came in. Class shield_9252 (shield_9252/src/shield_9252.cpp) starts
-- the chip and runs `MainTask` in the loop of a real-time thread, driven by the interrupt of the
-- chip, with statistics of its run time (rt_utilities/src/rt_utilities.cpp). The interrupts come
-- from a kernel driver (gpioirq_kdriver/gpioirq.c), which counts them in a semaphore that the
-- shield waits for by ioctl. thread/src/thread.cpp wraps POSIX threads, their scheduling, and named
-- semaphores as mutexes.
--
-- The files, each with its proofs in the files of its folder.
-- Common: names of the libraries and shared lemmas; M, the monad of a computation on a state that
--   returns (`done`), is undefined in C++ (`fault`) or has used up the fuel of a loop (`spins`).
-- Word: the unions UWORD, ULONG and PROCBUFFER (include/rpi_base/rpi_base.h), low byte first.
-- Spi: SPI_Write, SPI_Read, Write_Reg, Read_Reg, Write_Reg_Wait and Read_Reg_Wait of rpi_base.cpp.
--   Spi/Transaction has whole transactions as the abstract view of the bus.
-- Base: the members of rpi_base that the exchange uses, its constructor, send_output,
--   SPIReadProcRamFifo, SPIWriteProcRamFifo and MainTask. Base/Queue has the ring, Base/Cycle the
--   cycle as a sequence of transactions, Base/Interleaved calls and cycles in any order, Base/Typed the
--   types of the members; Spi/Safe, Base/Safe, Shield/Starting and Shield/Safe the accesses in range.
-- Ring: the steps of send_output beside the copy of a slot in SPIWriteProcRamFifo, which another thread
--   makes, as a step relation; Ring/Sent what the chip gets of it.
-- Receive: receive_input beside the thread that stores the buffer, as a function of the memory at each
--   access of the reader, between which the writer makes any number of steps of a relation; Receive/Refines joins it to the whole transfer. The counter is
--   one of all increments, of which the code sees 32 bits.
-- Stat: class stattool (include/rt_utilities/rt_utilities.h), over the operations of `double`.
-- Demo: a chip and a platform that the tests run on.
-- Shield: spi_init of rpi_base.cpp, init and what it calls, and execute_fromthread.
-- Shield/Irq and Shield/Wait join the wait of the shield to the kernel driver, Shield/Taken the
--   rounds of its loop, with what a cycle leaves alone in Base/Preserves.
-- Driver: gpioirq_kdriver/gpioirq.c with include/gpioirq/gpioirq.h, over the services of the kernel.
--   Driver/Counting has interrupts and calls in any order, Driver/Timeout the wait, Driver/Lifecycle
--   what open takes and close gives back, Driver/Leak opens that fail, Driver/Demo a kernel for the tests.
-- DriverTest: main of gpioirq_kdriver/user_space_test/test.cpp, over the driver in DriverTest/Halves.
-- ThreadName, Scheduler, Thread: fix_threadname; raise_soft_prio and setscheduler; the constructors,
--   Resume, Suspend, Terminate, the destructors and get_nextcpu of thread and rtthread. Thread/Endings
--   and Thread/Lives have what the life of an object gives back, Thread/Helpers has rttestthread and
--   register_this_thread.
-- Thread/Exec: ExecThread; __Start_thread beside the constructor and Resume as a step relation on the
--   object and its start mutex.
-- Mutex: basemutex and mutex of thread.cpp, over the named semaphores of the system.
-- Realtime: readfilebuf, strip and isrealtime of rpi_base.cpp.
-- Console, Keyboard, Sleep: bashoutput; _getch, _kbhit and utl_kbkey; milisleep, all of rpi_base.cpp.
-- Program: main of slave_test/src/slave_test.cpp. Program/Latest has rounds of its loop and cycles of the
--   real-time thread in any order, each taken as a whole, Program/Start main from its start on.
--
-- What is a parameter. The bcm2835 library is a `Bus` or a `Platform` over a type of hardware
-- states, the scheduling calls of the system are a `Kernel`, its file calls `Files`, the answers to
-- the thread calls are `Answers`, the kernel below the driver is `Services`, named semaphores are
-- `Semaphores`, the terminal is a `Terminal`, what else a main calls is `Calls`, and `double` is a
-- type with the operations that the code uses. What the theorems need of them are named hypotheses:
-- `Clears` says for how many polls the chip is busy, `Responds` says it for the waits of a cycle,
-- `KeepsLimits` says what the system does with the limits of a process, `IsOrdered` what
-- comparisons give, `KeepsTime`, `CountsUps` and `Accounts` what the kernel does with time,
-- semaphores and what is taken of it, `Connects` how an ioctl reaches the driver, `Reaches` the
-- same for the test of the driver, `Spares` that the other calls of the loop take no interrupt,
-- `Counts` what a named semaphore does, `Behaves` what a terminal does. Uninitialised memory is an
-- argument, `junk`, `raw` or the object that a constructor gets.
--
-- Fuel. The polls of a register and the loops of setscheduler, receive_input and down_timeoutms run
-- on fuel. One round more than the chip is busy for is enough for a poll, two rounds are enough for
-- setscheduler, and one round more than the time to wait has steps for down_timeoutms. The loop of
-- the real-time thread is endless until it is cancelled, and so are the loops of the two programs;
-- they are run for a number of rounds.
--
-- Memory. Where threads meet in Ring, Receive and Thread/Exec, their accesses are taken to be seen
-- in program order.
--
-- What is not modelled: messages of the kernel module and of the test of the driver; get_curthread,
-- which is not compiled. Getns is taken with a time_t of 64 bits. In Thread the calls of the system
-- are a list, so that their order can be stated, and not the system's reaction to them.
pub mod Common
pub mod Word
pub mod Spi
pub mod Base
pub mod Receive
pub mod Ring
pub mod Stat
pub mod Demo
pub mod Shield
pub mod ThreadName
pub mod Scheduler
pub mod Thread
pub mod Realtime
pub mod Driver
pub mod DriverTest
pub mod Keyboard
pub mod Sleep
pub mod Console
pub mod Program
pub mod Mutex
