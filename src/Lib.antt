-- ===== src/Lib.antt =====
-- Character device drivers for learning Linux driver development.
--
-- The program is a collection of kernel modules. Those modelled here are:
--  - 06.char_drv/1.cdev/0.ch6/globalmem.c, 4096 bytes of memory behind a character device;
--  - 06.char_drv/1.cdev/0.ch6/multi_globalmem.c, ten such devices behind one driver;
--  - 06.char_drv/2.platform_cdev/globalfifo/ch12/globalfifo.c, a byte FIFO with blocking reads and
--    writes, poll and SIGIO, and its first version, ch8/globalfifo.c;
--  - 00.mDemo/08.dma/1.dma_base/kDemo.c, ioctls for the kernel's DMA interfaces, and what
--    2.dma_base_arm/kDemo.c changes of it;
--  - 00.mDemo/02.base/3.list/kDemo.c, persons on a list of the kernel;
--  - 00.mDemo/01.base_demo/1.base/kDemo.c, the device that all demos start from, and the demos
--    02.base/1.container_of, 2.atomic_ops, 4.fifo (kfifo), 6.alloc_buf and 7.print,
--    03.file_sysfs/1.kernel_file_opt, 2.sysfs, 3.proc, 4.file_opt and 5.dump_fd_info,
--    04.platform_driver, 05.timer_delay/1.timer, 2.delay and 3.get_cur_time,
--    06.thread/1.task_struct, 2.kthread_worker, 3.kthread_worker2 and 4.work_struct,
--    07.thread_sync/1.sync_lock, 2.sync_semaphore, 3.sync_completion and 5.wait_queue;
--  - 00.mDemo/01.base_demo/1.base/userDemoBase.c, a program that tries out that device;
--  - ch8/globalfifo_poll.c, ch8/globalfifo_epoll.c, ch9/globalfifo_test.c and ch9/aior.c beside
--    the FIFO, programs that wait for it or read a file;
--  - 00.mDemo/08.dma/1.dma_base/userDemoBase.c, a program that tries out the DMA driver.
-- The modules do not call each other; all of them call the kernel, and processes call them. The
-- programs reach their drivers by system calls.
--
-- The files:
--  - Prelude: library names, lists and memory over native numbers (Lists), two's complement (Int),
--    runs of a step relation (Steps), how often a number is on a list (Count).
--  - Kernel: error codes, the return value of a file operation (Ret), copy_to_user and
--    copy_from_user (UserCopy). Copy has memcpy, Memory has filled blocks, Chrdev has what a
--    module registers (Ledger) and the kernel's answers, Text the strings of C, Samples has
--    concrete kernel calls for the tests. These are parameters of the models. Their documented
--    contracts are IsUserCopy and IsMemcpy, which says nothing of regions that overlap.
--  - GlobalMem: globalmem_ioctl, _read, _write and _llseek are ioctl, read, write and llseek. A
--    device is a list of 4096 bytes, a file its position. Access and Seek have the plain
--    specifications (pread, pwrite, lseek), Invariant the calls in sequence, Setup globalmem_init
--    and globalmem_exit.
--  - MultiGlobalMem: the same handlers on the device in a file's private_data. Sessions has the
--    calls in sequence, Isolation how they keep apart, Setup the loops of init and exit.
--  - GlobalFifo: what globalfifo_read and globalfifo_write do behind their loops (read_out,
--    write_in), globalfifo_ioctl and globalfifo_poll. Queue has the abstract queue. System is a
--    step relation on threads: entering, the waiting loop, sleeping, waking, leaving; its children
--    have the invariant and what follows from it. Files has fasync, open, release, probe and
--    remove, Setup the init and exit of ch8, Plain the operations of ch8 and threads that call
--    them (Simulation compares them with those of ch12). Clients has the programs that use the
--    device: globalfifo_poll.c and globalfifo_test.c, and in Epoll and Aior the other two.
--  - Dma: the data of one device and the account of what it holds (Held), in which giving back
--    what is not held is a fault. Coherent, Single, Sg, Pool and Info have the operations of the
--    same sections of the source, Ioctl the command numbers and the dispatch, Module open,
--    release, read, write and the rounds of m_chr_exit, Load m_chr_init and m_chr_exit. Accounts
--    is the invariant that a device's data names what is held. User has the tests of the program,
--    on top of the driver's ioctl (Program has its main). Arm has the functions of 2.dma_base_arm
--    that differ.
--  - Persons: the functions on persons; the kernel's list is a parameter (ListApi) with its
--    documented behaviour (IsListApi). Order has the sorted insertion, Account the blocks that are
--    held, Show what is printed.
--  - Demo: m_chr_init, m_chr_exit, read and write of 1.base. Program is the program beside it, on
--    top of read and write. The other children are the other demos: Atomic (Lock has its
--    spinlock), Completion, AllocBuf, Fifo (the kernel's kfifo is a parameter, FifoApi, with its
--    documented behaviour, IsFifoApi; Balance has the blocks that are held, and the lock, Session
--    the buffer of the second FIFO), Sysfs (Setup has the kobject), ContainerOf, Proc (Texts has
--    what is written and read, Setup a failing init), Files, KernelFile (Single has one opening at
--    a time, Sharing openings that overlap, Buffer the bytes that are printed), DumpFds (Lines and
--    Text have what is printed), Print, Clock and Delay (printing into buffers, clocks and delays
--    are the kernel's, and parameters), Worker, Locks, and the step relations Timer, Rcu,
--    WaitQueue (Unload has the unloading of the module), Semaphores (the seven threads of
--    2.sync_semaphore, Rcu has the value under RCU; Exit has the calls of kthread_stop), Platform
--    (the driver core's steps), Tasks and Works. Works has open and release of 4.work_struct and
--    3.kthread_worker2 as lists of kernel calls; Overlap has the runs with one open file, Analysis
--    checks such lists, Levels, Safety, Counts, Rest and Progress show what a list that passes
--    leaves behind, and Sessions has the two drivers.
--  - The modules whose names end in Tests have the theorems at concrete inputs.
--
-- Bounds. `unsigned int`, `unsigned long` and `loff_t` have 32, 64 and 64 bits, and wrap where the
-- source lets them. Counts of memory are natural numbers. Every loop over a fixed number of rounds
-- is a recursion on the rounds that are left, so no fuel is needed; the waiting loops are steps of
-- the relation, any number of them. The loops that empty a FIFO have fuel for one round more than
-- it has entries, and no result where that is used up.
--
-- Simplifications. The work of a thread under the FIFO's mutex is one step, since no other thread
-- touches the device then, and so is setting the task state with the release of the mutex before
-- schedule, since wake-ups are sent under the mutex. A wake-up reaches every thread on the queue.
-- In a DMA page array, the pages' contents are not modelled; a process's parameter block has no
-- unused bytes. The calls on a DMA device are taken one after the other: the source has no lock,
-- and calls that overlap are not modelled. What a driver writes to the kernel's log is left out,
-- but for the lines of Persons.Show and Demo.Clock. A map that the source keeps in an array of
-- devices is a function of the index.
--
-- A file that a demo opens is a number, a text a list of bytes. A spinlock that is never given
-- back is a call without a result (none), and so is the use of an error pointer as a pointer.
--
-- In 4.work_struct and 3.kthread_worker2, the calls of open and release come one after the other.
-- In 2.sync_semaphore, each kthread_run succeeds.
--
-- Not modelled: high memory in 6.alloc_buf; signals to kernel threads but that of kthread_stop;
-- negative numbers of persons (the source's calls have none); fasync in the step relation (a
-- thread does not change the SIGIO list there); 02.base/5.likely_unlikely and 8.print_addr, which
-- only print; ch9/globalfifo.c, which has the operations of ch12 and the registration of ch8; the
-- other copies of 1.base; the run of the DMA program with -b, the programs beside the other demos,
-- which are copies of that of 1.base, the build demo, the files that the kernel's build generates,
-- and the notes.
pub mod Prelude
pub mod Kernel
pub mod GlobalMem
pub mod MultiGlobalMem
pub mod GlobalFifo
pub mod Dma
pub mod Persons
pub mod Demo
