-- ===== src/Lib.antt =====
-- sbuOS, a 64-bit operating system in C: models of parts of the kernel, and what they satisfy.
--
-- The parts, and the files that model them.
--
-- Memory: sys/misc.c, the loops over bytes (`memset`, `memcpy`, `streq`, `strlen`, `memeq`),
--   `math_min` and `get_random`. A memory is a function from addresses to bytes; `none` says that the
--   fuel of a loop over a string ran out, and the theorems give the fuel that is enough: one round
--   for each byte up to the 0.
-- Pages: sys/memory/phy_page.c, the table of the physical pages. The table is a list of
--   `page_entry`, and a pointer to an entry is an index. `find_free_page_entry`,
--   `find_free_page_entry_many`, `get_phy_page`, `get_phy_page_for_program`, `dup_page_for_program`
--   and `free_page_for_program` keep their names. The search for several pages runs on fuel, one more
--   than the table has entries; each round starts behind the last one.
-- Paging: the walks of the same file through the page tables, `translate_cr3` and `set_pte_rw`, over
--   a memory of words.
-- AddressSpace: sys/thread/kthread.c, the pages of a process: `add_new_m_map_for_process`,
--   `add_page_for_process` and `map_page_for_process`, which make the tables that Paging walks out of
--   pages that they take from Pages; the memory of `fork_process` (`dup_page_for_process`, and the
--   tables that a new process begins with); `check_and_handle_rw_page_fault`, which copies a shared
--   page on a write; and the page fault of `kernel_space_handler` in sys/idt.c.
-- Process: sys/thread/kthread.c, signals (`process_add_signal`, `search_process`), the clean-up
--   (`process_cleanup`, which uses Pages for the mappings), and the scheduler (`process_schedule`). A
--   process is its address, and the linked list of the processes is a list of addresses. The scheduler
--   runs on fuel, for as many rounds as there are processes.
-- Timer: sys/timer.c, the processes that wait for ticks (`register_to_be_waken`,
--   `register_to_trigger_alarm`, `tick_timer_update`), which it wakes in the table of Process.
-- Pipe: sys/disk/file_system.c, the pair of file table entries of a pipe: `generate_entry_pair`, the
--   branches of `file_read` and `file_write` for pipes, and `file_close`. The queue that a pipe
--   promises is in Pipe/Queue.
-- Print: sys/kprintf.c, the numerals, the format loop of `kprintf` and `kprintfa`, and the buffer of
--   `kprintfa`. Ten rounds are enough for the digits of an `unsigned int`.
-- Screen: the same file, the text screen: `print_func`, `scroll_lines_up`, `clear_screen`,
--   `print_terminal_input_line` and `print_topright`.
-- Keyboard: sys/keyboard.c, from a scan code to a character.
-- Terminal: sys/ternimal.c, the line that is typed, which goes to a process through a pipe, and the
--   output of the processes, which comes through another one; it uses Pipe, Process, Print and Screen.
-- Disk: sys/disk/disk_driver.c, the queue of the disk tasks. It takes its pages from Pages. The
--   functions of sys/ahci.c are a parameter, which `driver` of Ahci fills.
-- Ahci: sys/ahci.c, the commands for a disk: `ahci_read_task`, `ahci_write_task`, `check_ahci_port`,
--   `ahci_read` and `ahci_write`. The registers of a port are a parameter: what a read of one gives
--   may be different each time. The wait for a task is bounded by the code itself; the others run on
--   fuel. `driver` is the form that Disk takes.
-- Fs: sys/disk/file_system.c, the files on disk: `search_file_in_disk`, `create_file_in_disk`,
--   `file_open_read`, `file_open_write`, `directory_compare`, the disk part of `list_next_file`, and
--   the branches of `file_read` and `file_write` for an inode. `read_disk_block` and
--   `write_disk_block`, which wait for the controller, are a parameter; Fs/Search says what a device
--   that works promises. The search runs on fuel, one round for each list.
-- Paths: sys/disk/file_system.c, `calculate_path` and `shorten_path`, on fuel: one round for each
--   byte, and two, where no name ends with a dot.
-- KernelHeap: sys/memory/kmalloc.c, `sf_malloc`, `sf_free`, `sf_realloc` and `sf_calloc` with what they
--   call, on the words of the memory: blocks with tags, and the list of the free ones. The loops run
--   on fuel, one round for each block, and one. KernelHeap/Tiles is the view of the heap as blocks
--   side by side, which the theorems are about.
-- Elf: sys/elf64.c, `read_elf` and `read_elf_tarfs`, over a parameter that reads bytes of the file; in
--   Elf/Archive that is `tarfs_read` of Tarfs.
-- Shell: bin/sbush/sbush_process.c, `ProcessCommand` down to the start of the job: `ParseCommand`,
--   `ParseBySpace` and what they call.
-- Exec: libc/exec.c, `execvpe`, the search of a program in the directories of PATH, on fuel: one round
--   for each directory, and one.
-- Descriptors: the handlers of sys/idt.c for close, dup, pipe and the part of open that takes a
--   descriptor, and what `spawn_process`, `fork_process` and `process_cleanup` of
--   sys/thread/kthread.c do to the descriptors of a process.
-- Syscall: other calls of the handler in sys/idt.c: signals (`handle_sig_pending`, sys_signal,
--   sys_set_signal_handler, sys_sig_return), sys_brk, the round of sys_read on a pipe that may put the
--   process to sleep, sys_wait up to its switch and behind
--   it, and the initial stack that sys_exec builds; it uses Pipe and Process.
-- Tarfs: sys/tarfs.c, the archive of the kernel: `read_oct`, `tarfs_read`, `tarfs_find_offset` and
--   `tarfs_file_info`. The strings and the search run on fuel; a round for each file, and one, is
--   enough.
-- UserHeap: libc/malloc.c, the allocator of the user programs that the build selects.
-- Prelude: the shared names, lists and tests over native numbers, and C `int`s.
--
-- Numbers are native; where the code computes with words of 32 or 64 bits, the wrap-around is written
-- out. What never returns (`assert` on a false condition, an endless loop, a read through NULL) is
-- `none`, or an outcome of its own. Memory from the kernel heap is taken to be there, and what is
-- given back to the heap leaves the model.
--
-- Not modelled: the kernel's own page tables (`kernel_page_table_init`, `_kbrk`), the registers of a
-- new process and its segments (`spawn_process`, `replace_process`), `init_file_system` of
-- sys/disk/file_system.c, `next_tarfs_file`, the other system calls of sys/idt.c, the rest of the user
-- library and of the shell; and the parts that act on the hardware only (sys/main.c, sys/gdt.c,
-- sys/pci.c, the start of sys/ahci.c and the assembly files).
pub mod Prelude
pub mod Memory
pub mod Pipe
pub mod Pages
pub mod Paging
pub mod AddressSpace
pub mod Process
pub mod Timer
pub mod Print
pub mod Screen
pub mod Keyboard
pub mod Terminal
pub mod Disk
pub mod Tarfs
pub mod UserHeap
pub mod Fs
pub mod Paths
pub mod KernelHeap
pub mod Elf
pub mod Shell
pub mod Exec
pub mod Descriptors
pub mod Ahci
pub mod Syscall
