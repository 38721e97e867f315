-- ===== src/Lib.antt =====
-- Verification of the kernel's memory, file system and I/O code, and of parts of the assembler.
--
-- The program: the kernel opens, seeks and reads files of a FAT volume with state machines. Each
-- machine submits the read of a sector to the I/O scheduler and goes on in the callback; the SD
-- interrupt puts completions into a ring, and the scheduler's pump takes them out and calls back.
-- The program loader is a machine over those of the file system. Contexts and requests come from the
-- kernel heap, the memory of programs from a bitmap. The user programs are built with an assembler.
--
-- The files and the code that they model:
--   Kmem    kernel/memory/kmem.c. Memory is a function from addresses to words; kheap_init, kmalloc
--           and kfree keep their names. Blocks is the heap as a list of blocks, Layout relates the two.
--   Umem    kernel/memory/umem_alloc.c. The bitmap is a function from byte numbers to bytes.
--   Slab    kernel/slab_allocator.c, over words of memory like Kmem. Slab/Freed is about slab_free.
--   Fs      include/file.h, include/fs_running_info.h and what kernel/fs/fs.s gives the C code.
--   Fs/Seek kernel/fs/fs_seek.c and include/io/fs/fs_seek.h: seek_submit is fs_seek_submit, seek_step
--           fs_seek_step and so on, without the prefix fs_.
--   Fs/Read kernel/fs/fs_read.c and include/io/fs/fs_read.h, in the same way.
--   Fs/Name and Fs/Open: kernel/fs/fs_open.c, include/io/fs/fs_open.h; Fs/Open/Directory is
--           include/fat_directory.h with the search of a sector, Fs/Open/Entries about its bytes. Fs/Close: kernel/fs/fs_close.c.
--   Elf     kernel/fs/fs_elf.c, include/elf, include/process.h, `true` and `false` of include/types.h.
--   Sched   kernel/io/io_scheduler.c and drivers/spi/sd_irsq.c with include/io/io_sheduler.h,
--           include/io/io_sd_ring.h and include/io/sd_state.h. Sched/Runs has them as a step relation.
--   Asm     tools/assembler/rva.c: symbol tables, identifiers, numbers, operators and
--           what an operator computes. Asm/Variable is get_variable, Asm/Expression evaluate, with
--           expressions as trees in its Grammar.
--   Asm/Encode: rv32i_mnemonic and what it calls. Its nested functions are parsers that stop at the
--           first error; Decode and Run are the manual's view of the words, Layout is about where
--           they go, Sizes and Fixed about their lengths over the passes.
--   Asm/Label is assemble_redef_label, Asm/Directive assemble_line with its directives, Asm/Passes the
--           loop of main over the passes, where what a pass finds is a parameter.
--   Asm/Symbols/Sort is sym_sort_symbols with sym_count_symbols; Asm/Elf the ELF output: elf_dump with
--           its blocks, Asm/Elf/File elf_dump_out with sym_strtab; Asm/Hex hex_dump and list_hex,
--           Asm/Output byte_dump with the three outputs, Asm/Source input_line and the loop over a file.
--   Base    what the others share. Modules called Tests hold runs at concrete inputs.
--
-- A step of a machine is a function from its context, the completion's status and the sector in the
-- buffer to what it does next: a read of a sector, or its end. The runners seek_run, read_run and
-- open_run serve the reads from a disk that does not fail. A file is reached by pointer in C; here
-- the machine that works on it holds its current value.
--
-- Fuel: the loops over the heap take one unit for a block, and a heap of n blocks is enough with n
-- + 2. A run of a seek takes one for each link of the FAT, a run of a read one for each sector and
-- the links behind it; the theorems name the fuel that is enough. The scan of the bitmap, of a
-- directory sector and of a line of text are structural. slab_free takes a unit for each slab
-- before the object's, and then one for each slab; io_sched_pump answers none when fuel ends, and
-- what is shown of it is about rounds of the pump that end. evaluate takes one unit for each
-- operand or bracket, and the length of the line and one more are enough; the elements of DEFB
-- take one each. The passes are 22 at most. The loop over the lines of a file takes one unit for
-- each and two more.
--
-- Words are those of 32 bits, with the wrap-around written out where the source can overflow; the
-- theorems bound addresses and sizes where an overflow would matter. C leaves open what a shift by 32
-- bits or more gives and what stands behind the 32 characters that a symbol record keeps of a name:
-- there the operators give 0, and the characters kept are taken for the name.
--
-- Not modelled: the assembly code (processes, system calls, drivers, terminal, library), the user
-- programs, the lookup of mnemonics and labels on a line, the options, messages and listings of the
-- assembler, the build tools and the tests. The directives that read files or whole tables are a
-- parameter. A register or flag that the assembler leaves unset behind an error has a fixed value.
-- The allocations of contexts and requests in the file machines are taken to succeed, as in the
-- source, which does not test them. The state of the SD driver behind sd_start_read is left out.
pub mod Base
pub mod Kmem
pub mod Umem
pub mod Slab
pub mod Fs
pub mod Elf
pub mod Sched
pub mod Asm
