-- ===== src/Lib.antt =====
-- A model of the Nachos kernel and its simulated machine (code/), with proofs about the parts below.
--
-- The program simulates a MIPS machine with a disk, a timer, a keyboard and a network, and an operating
-- system on it. A file is a header (FileHeader) that names disk sectors; the sectors in use are the bits of a BitMap; names are found
-- through a Directory; and every sector moves through the SynchDisk, which waits for the raw disk and
-- keeps four sectors in a cache. FileSystem puts these together to create and remove files, and OpenFile
-- reads and writes a part of one. Threads take turns on one processor: Yield and Sleep pick the next of
-- the ready list, the semaphores, locks and conditions of Synch put threads to sleep and wake them, and
-- the timer of Interrupt makes a thread yield. SynchList is a list under a lock and a condition. The
-- devices ask Interrupt for a call at a later time: the Console looks at its keyboard, and the Network at
-- its socket, and wake the threads of SynchConsole and of the PostOffice, which puts mail into boxes. A
-- user program is copied by AddrSpace from its object file to the file "VirtualMemory", and run by Mips,
-- an instruction at a time; it reads and writes memory through Machine, which takes a page from that file
-- when the page table has no entry for it.
--
--   LinkedList   code/threads/list.cc, list.h: List as a heap of ListElements with first and last.
--                LinkedList.Chain is the well-formed list, .Queue, .Sorted and .Walk its operations.
--   BitMap       code/userprog/bitmap.cc: BitMap as its array of words. BitMap.Valid is the invariant and
--                the meaning of a bit; the other children are named for the operations.
--   SynchDisk    code/filesys/synchdisk.cc (ReadSector, WriteSector) with ReadRequest, WriteRequest and
--                HandleInterrupt of code/machine/disk.cc. SynchDisk.ReaderWriter has the reader and writer
--                protocol of a sector as steps of the threads, and SynchDisk.Latency the time a request takes.
--   FileHeader   code/filesys/filehdr.cc: Allocate, Deallocate, ByteToSector, ExtendFile, FetchFrom and
--                WriteBack, on the bitmap and the synchronous disk.
--   OpenFile     code/filesys/openfile.cc: Read, Write, ReadAt, WriteAt and Seek over the sectors of a header.
--   Directory    code/filesys/directory.cc: FindIndex, Find, Add and Remove.
--   FileSystem   code/filesys/filesys.cc: Create, Open and Remove, with FetchFrom and WriteBack of the
--                directory and of the map (code/filesys/directory.cc, code/userprog/bitmap.cc) on their open
--                files. FileSystem.Create and .Remove follow every branch of theirs, and FileSystem.Reads is
--                about the calls that only read.
--   Machine      code/machine/translate.cc, machine.cc and code/userprog/exception.cc: Translate, ReadMem,
--                WriteMem, RaiseException and the page fault handler, in the build without USE_TLB.
--                Machine.Registers, .Trap and .Memory have what a call leaves well formed. Machine.Tlb is
--                the replacement in the translation buffer, Swaptlb and Hittlb.
--   AddrSpace    code/userprog/addrspace.cc: the constructor with SwapHeader, and InitRegisters;
--                SaveUserState and RestoreUserState of code/threads/thread.cc. AddrSpace.Loading and
--                .Program follow a program from its object file to memory.
--   Mips         code/machine/mipssim.cc and mipssim.h: Mult, Instruction::Decode (.Decode) and
--                OneInstruction (.Execute), its operations in .Compute and .Transfer; .Fields has words that
--                are put together from their fields. An operation ends in an
--                Outcome: `next` for `break` and `stop` for `return`.
--   Threads      code/threads/thread.cc and scheduler.cc: the threads, the ready list, and the list of all
--                threads with its 128 places.
--   Synch        code/threads/synch.cc: Semaphore, Lock and Condition. Synch.Protocol has a lock and the
--                threads that use it as a step relation; .Exclusion, .Waiting and .Awake are its invariants.
--   SynchList    code/threads/synchlist.cc: Append and Remove as a step relation, with the places of the
--                thread that has the lock. SynchList.Order is about the items, .Wakeup about the waiters.
--   ThreadTest   code/threads/threadtest.cc: Producer_semaphore and Consumer_semaphore as statements of any
--                threads. ThreadTest.Buffer is about the buffer, .Stuck about threads that cannot go on,
--                .Ends about the length of runs; .Philosophers is Philosopher with server_get and server_ret.
--   Interrupt    code/machine/interrupt.cc and timer.cc: the time, the pending interrupts and the timer.
--                Handlers and the yield are arguments.
--   Network      code/machine/network.cc: the device, with the socket as arguments and results.
--   PostOffice   code/network/post.cc: Send, Receive, the round of PostalDelivery and the handlers.
--                PostOffice.Delivery follows a mail over two devices.
--   Console      code/machine/console.cc: the device. Console.Keyboard has it and the threads that take
--                characters by SynchConsole::GetChar as a step relation.
--   Base         numbers, lists, binary digits, C's int, and the results of a run.
--
-- A function of the model has the name of the function of the source, in lower case with underscores;
-- an object that a function changes is an argument and part of the result. A run that ends in a failed
-- ASSERT, an access out of bounds, a trap of the host, or a loop that does not end is a value of
-- Base.Fault.Error.
--
-- Sizes are those of the source: 1024 sectors of 128 bytes, 26 places in a header, 32 frames, 128 threads,
-- words of 32 bits. The fuel of a loop over a List is the number of elements that were ever made (destroy
-- and get_list_length take theirs as an argument); a loop over the interrupts that are due has one round
-- more than there are such interrupts; a loop of Sleep has the calls of Idle that it may make as an
-- argument; the other loops are recursions on their count. Keys, sector numbers and table entries are ℤ;
-- sizes, times and counts are natural numbers, as a program that runs has them below 2 ^ 31. The
-- integers of a header are stored least significant byte first.
--
-- Threads, Synch, SynchList, Interrupt and PostOffice see a List as the sequence of its items. The
-- layout of a directory entry in memory is an argument. The file "VirtualMemory" is that of the host or of
-- the file system: what its pages give is a field of Machine, and its calls are an argument of AddrSpace.
--
-- Not modelled: the host (code/machine/sysdep.cc); the stacks of the threads and the switch in assembler;
-- the translation through the buffer, and its page faults, of the build with USE_TLB; the start of the file
-- system and the formatting of a disk; the debugger and the listings; the exercises of threadtest.cc with a
-- condition variable or a barrier; the command line; the user programs and the tools that make object
-- files. But for the protocols a call of the file system runs alone, so that a wait on the disk ends with the interrupt of
-- the request under way. The time of day, the random numbers, what the socket and the keyboard have, and
-- what new memory holds are arguments.
pub mod Base
pub mod LinkedList
pub mod BitMap
pub mod SynchDisk
pub mod FileHeader
pub mod OpenFile
pub mod Directory
pub mod FileSystem
pub mod Machine
pub mod AddrSpace
pub mod Mips
pub mod Threads
pub mod Synch
pub mod SynchList
pub mod ThreadTest
pub mod Interrupt
pub mod Network
pub mod PostOffice
pub mod Console
