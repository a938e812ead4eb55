-- ===== src/Lib.antt =====
-- Verification of CS537 operating system projects: the proxy server of p6, the log-structured
-- file system of p7, the scheduler and process table that p4 adds to xv6, the shell of p3, the
-- formatter, search and display of manual pages of p1, and the mapped memory that p5 adds to xv6.
--
-- The parts are separate programs and share Base (Man also takes fgets from Wgroff): the
-- library's names, lists and Boolean tests over the native numbers (Base/Lists, Base/Tests), integers (Base/Int), results
-- (Base/Results), and the functions of <string.h> and <stdlib.h> that the programs call, on texts
-- as lists of bytes without the NUL (Base/CString).
--
-- Proxy, for p6/starter-code. A listener accepts connections and puts requests into a bounded
-- priority queue; workers take them out, forward them to a file server and send back its answer.
--   Proxy/Queue: safequeue.c: create_queue, add_work, get_work, move_down. `elements` is a list of
--     cells, a request pointer is the request's value. add_work and get_work hold the lock from
--     start to end (or to the wait), so each is one step. Queue/Spec is the abstract queue,
--     Queue/Place and Queue/MoveDown are about the two loops, Queue/Refine links both,
--     Queue/Replies is about what a result says, Queue/Runs about sequences of calls.
--   Proxy/Http: proxyserver.c: the printed texts, and the loop of http_send_data over the results
--     of `write`, which are an argument; Http/Send is about that loop.
--   Proxy/Parse: parse_client_request on what one `read` gave.
--   Proxy/Listener: one round of serve_forever after `accept`, with no other thread in between;
--     Listener/Answers is about what the client gets.
--   Proxy/Worker: serve_request, on what the sockets do; Worker/Forward is about the loop that
--     forwards the response.
--   Proxy/Threads: the loops of listener and worker_thread, with get_work, as a step relation on the
--     queue and the places of all threads. A call of add_work or a round of get_work is one step, since
--     it holds the lock; the look at `size` before it is a step of its own. Threads/Deliver is about
--     single steps, Threads/Places about where requests are, Threads/Wakeup about the condition
--     variable, Threads/Single about a server with one listener.
--   Proxy/Settings: default_settings and the loop of main over the command line, which has one round
--     for each argument at most (Settings/Ends); Settings/Options is about what a command line means.
--
-- Wfs, for p7. The disk is a superblock and a log of entries, each an inode and its data; an entry
-- is never overwritten except by the flag that marks it as deleted.
--   Wfs/Log: wfs.h, the state `disk` and `sb` of mount.wfs.c, and the state that mkfs.wfs.c leaves.
--     The bytes up to `head` are the list of entries, a pointer into it is an index; the bytes behind
--     `head` are a function of the offset. Log/Append is about an entry that is added, Log/Bytes
--     about bytes written over others.
--   Wfs/Lookup: get_log_entry and Max_InodeNum; Lookup/Latest is about what they find.
--   Wfs/Path: get_inode_number, path_to_log_entry, find_parent_log_path; Path/Dentries is about
--     directories as lists of dentries, Path/Walk about the entry that a path leads to.
--   Wfs/Create: my_mknod and my_mkdir, which differ in the type bit and the order of assignments
--     only; Create/Fresh is about the new entries, Create/Made about the call as a whole.
--   Wfs/Rewrite: my_getattr, my_read, my_write, wfs_unlink; Rewrite/Versions is about writes,
--     Rewrite/Unlink about unlinks, Rewrite/Paths about both by path.
--   Wfs/Readdir: my_readdir, with FUSE's filler as a parameter; Readdir/Listing is about what it
--     lists.
--   Wfs/Fsck: compact_entries of fsck.wfs.c on the disk as a list of bytes, with one round for each
--     byte at most; Fsck/Faults is about a disk of 1 MB.
--
-- Sched, for p4/xv6-public. A pointer into ptable.proc is the slot's index; of struct proc the
-- model has what scheduling reads and writes.
--   Sched/Table: proc.h, wakeup1, wakeup2, decay, update_priority of proc.c.
--   Sched/Pick: one round of scheduler, up to the switch of contexts.
--   Sched/Process: allocproc, userinit, fork, exit, wait, yield, sleep, kill. What kalloc, copyuvm
--     and setupkvm give is an argument. `wait` is a round of its loop, `sleep` is split at the switch of contexts.
--   Sched/Clock: the timer interrupt of trap.c, and sys_nice, sys_sleep and getschedstate;
--     Clock/Decay is about what the clock does to priorities and sleepers.
--   Sched/Killed is about kill. Sched/Pids states that pids are unique; Pids/Alloc, Exit, Wait and
--     Calls are about one operation each, Pids/Steps has the step relation over all operations, and
--     Pids/Boot starts it from the zeroed table and userinit.
--
-- Wsh, for p3/wsh.c. A job's id is its index in `jobs`. What `fork`, `waitpid` and `pipe` answer is
-- an argument; of a child the model has the program, its process group and the descriptors that
-- `dup2` gives it, in the list `spawned`.
--   Wsh/Outcome: how a function ends: it returns, the shell exits, or it does something undefined.
--   Wsh/Jobs: the job table, the handler of SIGCHLD, foreground, background and the list of jobs;
--     Jobs/Table states when a table is valid, Jobs/Update and Jobs/Add are about its changes.
--   Wsh/Run: exec_cmd; Run/Keeps and Run/Steps are about sequences of commands and signals,
--     Run/Foreground about a program that the shell waits for. A signal comes before or after a
--     command, or before a line of start_wsh, never within one.
--   Wsh/Args: cut and what it calls; Args/Cut is about the array it makes.
--   Wsh/Pipes: from setup_pipes to process_pipe, and start_wsh; the static `pipes` of exec_pipe is
--     part of the state. Pipes/Split is about the rows of commands, Pipes/Wire about the descriptors
--     of a pipeline, Pipes/Line about a line from its text on, Pipes/Keeps about the job table.
--
-- Wgroff, for p1/wgroff.c. The input is the text of the file, the result the name and the text of the
-- file that is written, or the message.
--   Wgroff/Format is about format_line, Wgroff/Body about a page
--   from the lines of its source on, Wgroff/Page about the first and the last line of a page,
--   Wgroff/Source about the lines and words of the input, Wgroff/Written about the page as a whole.
--
-- Man, for p1/wapropos.c and p1/wman.c. Files and directory entries are arguments.
--   Man: open_file and main of wapropos.c, wman and main of wman.c. The loops over a file have one
--     round for each byte and one more at most. Man/Scan is about a section, Man/Found about a page
--     as a whole, Man/Written about the pages that wgroff writes, Man/Shown about what wman prints.
--
-- Mmap, for p5/xv6-public. The page table gives the frame of each page, a frame is a number, and its
-- content is zeros or a page of a file; what the kernel has free for each page is an argument.
-- Of an open file the model knows whether it has an inode; the file of a pipe has none.
--   Mmap: mmap of proc.c, with is_region_free, and mappages and deallocuvm of vm.c.
--     Mmap/Region is about the loop over pages, Mmap/Choose about the choice of address and slot,
--     Mmap/Area about the call as a whole.
--   Mmap/Fault: the page fault of trap.c; Mmap/Grows is about what it leaves. Mmap/Share: clean_vma, copy_vma and the loop of fork.
--   Mmap/Unmap: munmap; its loop over the continuations of an area has as many rounds as there are
--     slots, and with none left the result is `endless`.
--
-- A fault (a NULL pointer that is used, an access outside an array, a kernel panic) is `none`,
-- and `faults` in Wsh and Wgroff. Loops are structural recursion on the list they walk. Where they
-- walk an array by index, the rounds are the number that the code's loop has: `queue->size` in move_down, the index in
-- add_work, the length of the table in exit. get_inode_number steps over a dentry of 40 bytes in
-- each round, so as many rounds as there are bytes are enough. Calls that wait (`get_work` at an
-- empty queue, a `write` or `recv` that has no result yet) give a value of their own.
--
-- Numbers: sizes, descriptors, offsets and counters of type int are natural numbers where the code
-- never makes them negative; priorities and delays are integers. Inode fields wrap round at 2^32.
-- `ticks` is not taken to wrap, and atoi stays exact where it overflows an int. my_read takes an
-- offset that is not negative.
--
-- The loops of wgroff that append blanks have as many rounds as their array has room for, and one
-- more is a fault. The search of mmap has one round for each page of the region. The sums of an address
-- and a length that mmap and the page fault compare wrap round at 2^32, where is_region_free has no
-- rounds; a length of mmap is at most 2^31 - 4096, since PGROUNDUP overflows an int beyond it. A pid is
-- an int by its 32 bits, and nextpid wraps round at 2^32; max_queue_size may be negative.
--
-- Not modelled: the sockets and the signal handler of p6, and what it prints; main of p7, and the
-- opening and mapping of the disk file; user memory, files, registers and contexts
-- of the xv6 processes, and the rest of xv6; main of p3, which sets signal actions, and its second
-- version in p3/alt_ver; the functions of p5's
-- proc.c that nothing calls, and what a frame holds once it is free; the project p2; the
-- copies of sources under p2/old_ver and p6/testing.
pub mod Base
pub mod Man
pub mod Mmap
pub mod Proxy
pub mod Sched
pub mod Wfs
pub mod Wgroff
pub mod Wsh
