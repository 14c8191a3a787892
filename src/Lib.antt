-- ===== src/Lib.antt =====
-- A verification library for malloc-lab: a dynamic memory allocator (mm.c) on a simulated heap
-- (memlib.c), two others with segregated free lists (mm-ds2.c and mm-cg45.c), and the driver that
-- checks and measures an allocator on traces (mdriver.c).
--
-- The parts and their files:
--   Base, Base/Bits     names, Boolean tests and bit operations that all parts share.
--   Memory              memory as a function from addresses to bytes; GET and PUT of mm.c, memcpy and
--                       memset of the C library.
--   Memlib              memlib.c: mem_init, mem_reset_brk, mem_sbrk, mem_heap_lo, mem_heap_hi and
--                       mem_heapsize on the three pointers (Vm); Memlib/Sbrk has the two branches.
--   Mm, Mm/Macros       mm.c: Heap is the three pointers of memlib.c, the bytes and the three globals
--                       heap_listp, free_list_head and rover. adjust_block, insert_node, remove_node,
--                       find_fit_ff, find_fit, place, coalesce (its four cases are merge), mm_free,
--                       extend_heap, mm_init, mm_malloc and mm_realloc have the names of the source.
--   Mm/FreeList         the doubly linked free list in memory (Links), insertion and removal.
--   Mm/Layout, Mm/Tags  the blocks one behind the other in memory (Tiles), their boundary tags.
--   Mm/Zip              the heap seen from one place, the blocks on the two sides of it and the free
--                       list, which holds the free ones: what holds while a function is at work there.
--                       Zip/Move moves the place; IsHeap is the whole heap.
--   Mm/Adjust, Mm/FindFit, Mm/Place, Mm/Coalesce, Mm/Free, Mm/Extend, Mm/Malloc, Mm/Realloc
--                       one function of mm.c each.
--   Mm/Init, Mm/Fresh   mm_init, and the heap that it leaves: its one free block is on no list.
--   Mm/Live             the abstract view of the heap, the allocated blocks in the order of their
--                       addresses, and what mm_malloc, mm_free and mm_realloc do to it (Represents,
--                       Holds); Mm/Payload is what a write to a payload leaves alone.
--   Mm/Frame, Mm/Place/Keeps, Mm/Malloc/Keeps, Mm/Live/Keeps, Mm/Live/Move/Keeps
--                       the bytes that the functions of mm.c do not write, and so the contents of the
--                       allocated blocks.
--   Mm/Client           a client of mm.c as a step relation: the calls that it makes from mm_init on
--                       (Call), with the pointers that it holds (Step, Reachable).
--   Mm/Grows            how the functions of mm.c move the break.
--   Mdriver             mdriver.c: types, error reports, and the interface that an allocator gives the
--                       driver (mm.h and memlib.h). Ranges is the range list, ReadTrace the reading of
--                       a trace, Valid, Util and Speed are eval_mm_valid, eval_mm_util and
--                       eval_mm_speed, Libc has the two functions for the C library. MmAllocator is
--                       mm.c as such an allocator; Ensures says what a run ends with. Options is the
--                       command line, Timer is fsecs.c with ftimer_gettod of ftimer.c, Results
--                       is printresults and the performance index, and Evaluate is main, with the
--                       loops over the traces.
--   Mm/Check            mm_checkheap, which is compiled for debugging only.
--   MmDs2               mm-ds2.c: Heap is the three pointers of memlib.c, the bytes and the globals
--                       seg_list and heap_listp; get_index, add_free_block, remove_free_block,
--                       find_fit, coalesce, place, extend_heap, mm_init, mm_malloc, mm_free and
--                       mm_realloc have the names of the source. Index and Size have the classes and
--                       the block sizes, Lists the twelve free lists in memory (IsSegregated), Check
--                       is mm_checkheap, as the messages that it prints.
--   MmCg45              mm-cg45.c, with seg_free_lists and heap_start, get_list_index,
--                       insert_free_block and the other functions by their names. Size has the classes
--                       and the block sizes, Flags the flags of a header, Extend is extend_heap.
--   Fcyc                fcyc.c: the K-best sampler, over any type of measurements. Sinks is the insertion
--                       sort of add_sample, Kept the sampler after it, Least what fcyc returns.
--   Mm/Tests, Mm/Live/Tests, Mm/Client/Tests, MmDs2/Tests, MmCg45/Tests, Mdriver/Tests,
--   Mdriver/Evaluate/Tests, Fcyc/Tests
--                       small heaps, traces and measurements.
--
-- How the code is modelled. The target is the i386 of the Makefile: a word, a pointer and a size_t
-- have four bytes, size_t arithmetic wraps at 2 ^ 32, an int is given by its bit pattern. Addresses
-- are natural numbers and memory is total; a pointer that would leave the address space is undefined
-- behaviour in C, and the theorems are about heaps below 2 ^ 32. A function returns its new state;
-- NULL is 0. exit(1) and a failed assert end a run of the driver as Stop.
--
-- Loops. The two loops of find_fit run on fuel, as many steps as the break has bytes; a node of the
-- free list takes at least 16 of them, so on a well-formed heap the fuel is enough. The
-- walks of find_fit of mm-ds2.c and mm-cg45.c have the same fuel; the nodes of a list of mm-ds2.c are
-- distinct addresses below the break, so it is enough. The loop of read_trace runs on one step for
-- each word of the file, which is enough since each request takes one. That of fcyc has one step more
-- than maxsamples.
--
-- Parameters: malloc, realloc and free of the C library in the driver, whether there is memory for
-- its own records, and the contents of new memory; the files, the clock, and the numbers of the type
-- double with their operations (Float).
--
-- Not modelled: usage and the other texts that are printed; the interval timer of ftimer.c and the
-- cycle counter of clock.c, which config.h does not choose; the older copies of mm.c, which are not
-- built.
pub mod Base
pub mod Fcyc
pub mod Mdriver
pub mod Memlib
pub mod Memory
pub mod Mm
pub mod MmCg45
pub mod MmDs2
