-- ===== src/Lib.antt =====
-- xpOS: the kernel's physical memory and page tables, its byte queue, its priority queue and hash
-- map, its tasks, schedulers, mutexes and wait queues, its TCP and its IPv4, its paths, its first
-- archive of files, its local sockets and its keyboard's scan codes, and of user space the
-- messages and the rectangles of the window server.
--
-- The kernel (Kernel/) runs tasks in groups. A task that waits marks itself with `about_to_block`,
-- tells somebody to wake it, and calls `block`, which takes it off its group's ready list;
-- `unblock` puts it back and gives the group to the scheduler if no queue holds it. On each timer
-- interrupt `refresh` wakes the sleepers whose time has come and asks the scheduler for the next
-- task. The scheduler has two priority queues and a ring of lists, each of which pre-empts the
-- next. Network segments come in through IPv4 to a TCP socket, which answers by IPv4 and hands the
-- data, put in order, to a network socket. Drivers and pipes pass bytes through fixed circular
-- buffers. A local socket is a buffer at each end of a connection; reading and writing wait in
-- wait queues. The memory manager hands out blocks of physical memory by a bitmap, for pages and
-- for the page tables that map them. The files that the kernel starts with are in a tar archive in
-- memory, which `load_initrd` enters into a map of directories; the file system looks paths up
-- there, name by name. In user space the window server (Userspace/System/WindowServer/) keeps the
-- parts of the screen to paint as a list of rectangles.
--
-- The files, and the code that each is about:
--
-- Memory.Copy: `memcpy` of Kernel/Memory/Memory.h, on memory as a list of bytes.
-- Memory.Bitmap: `PhysicalBitmap` of Kernel/Memory/MemoryManager.h. Byte and Bits are about
--   setting and clearing a bit, First about the search for a clear one.
-- Memory.Physical: the physical blocks of Kernel/Memory/MemoryManager.cpp; Blocks is about which
--   are in use.
-- Memory.Paging: the page tables of the same two files. Tables and Prepare hold the tree that
--   the tables form, Map the way of a request through it, Lookup and Walk what a lookup reads;
--   Translate is about the page that is mapped, Shared, PageNumber and Others about all other
--   pages. Memory.Paging.Unmap has the code that unmaps; Gone and Unmapped are about its result.
-- Memory.Regions: `RegionableVirtualAddressSpace` of Kernel/Memory/AddressSpace.h and
--   AddressSpace.cpp; Sorted is about the order of its regions.
-- Common.CircularBuffer: `FixedCircularBuffer` of Kernel/Common/CircularBuffer.h. Bounds and
--   Copies hold the arithmetic of the two indices and of the two copies; Refine relates the buffer
--   to the list of bytes that it holds.
-- Common.PriorityQueue: `PriorityQueue` of Kernel/Common/PriorityQueue.h, as the list that it
--   keeps; Order is about the order of that list.
-- Common.Strings: `strncpy` and `strcmp` of Kernel/Common/String.cpp; Copied is about what is
--   copied.
-- Common.Hashmap: `Hashmap` of Kernel/Common/Hashmap.h; Refine relates it to a partial map.
-- Tasks.State: the structures of Kernel/Tasks/Task.h, TaskManager.h and MasterScheduler.h.
-- Tasks.VariableFrequencyBuffer: the ring of lists of Kernel/Tasks/MasterScheduler.h. Scan is
--   about the search for a list that is not empty, Row about the list of what is pending, Refine
--   relates the two.
-- Tasks.Scheduler: Kernel/Tasks/MasterScheduler.cpp. Order is about what the three queues hand
--   out, Slice about the threads of a group.
-- Tasks.Manager: Kernel/Tasks/TaskManager.cpp. Wake is about blocking and waking, Sleep about
--   sleeping tasks, Lost about priorities that no queue takes.
-- Tasks.Spinlock: `Spinlock` of Kernel/Tasks/Spinlock.cpp; Held is about the locks that are
--   held, Restore about the interrupt flag.
-- Tasks.Mutex: Kernel/Tasks/Mutex.cpp; Fifo is about the order in which tasks get a mutex.
-- Tasks.WaitQueue: Kernel/Tasks/WaitQueue.h and WaitQueue.cpp; Wake and Total are about waking
--   all of a queue, Grown and Runnable about what the woken tasks and their groups are then.
-- Networking.Endian: `BigEndian` of Kernel/API/Endian.h.
-- Networking.Tcp.Header: `Header` and `Flags` of Kernel/Networking/TCP/Common.h.
-- Networking.Tcp.Socket: the variables of Kernel/Networking/TCP/Socket.h, sending, and the
--   queues of packets; Reassembly is about the order of received data.
-- Networking.Tcp.Receive: what Kernel/Networking/TCP/TCP.cpp does with a segment. Established,
--   Stale and Handshake are about connections that carry data, that get old data again, and that
--   are set up; Table holds the table of the states, and Diagram relates `receive` to it.
-- Networking.Ipv4.Checksum: `checksum` of Kernel/Networking/IP/IPv4.cpp. Fold is about adding
--   the carries, Verify about a message with its checksum.
-- Networking.Ipv4.Receive: `receive` of the same file; Bounds is about what it gives to TCP.
-- Networking.Tcp.Demux: `receive_ip` of Kernel/Networking/TCP/TCP.cpp; Listener is about an
--   endpoint whose first socket listens.
-- Windows.Geometry: `Rect` and the coordinates of Userspace/System/WindowServer/Geometry.h. Cut
--   is about one cut and the points that it keeps, Rest about the four in turn.
-- Windows.Clip: `ClipRects` of the same file. Pieces and Subtract hold the loop of `subtract`
--   and what it leaves, Region and Meet are about the points of a region.
-- Ipc.Archive: `SerialisedData` and `DeserialisedData` of Userspace/Libraries/SerialisationLib/
--   and the messages of the window server. Bytes is about integers and about types in general,
--   Vector and Messages about vectors and messages.
-- Filesystem.Path: `parse_path` of Kernel/Filesystem/VFS.cpp. Split is about the parts between
--   separators, Join about paths that are put together from names.
-- Filesystem.Nodes: the nodes of `VirtualFilesystem` of the same file; Stuck is about an `open`
--   that fails.
-- Filesystem.Tar: `TarReader` of Kernel/Drivers/Initrd/TARinitrd.cpp. Resolve, Walk, Added and
--   Reach are about resolving a path and what then leads where; Image has the headers in memory,
--   with Octal about the size of a file, and Loaded is about a whole archive.
-- Pipes.LocalSocket: `LocalSocket` of Kernel/Pipes/LocalSocket.cpp. Accepts and Missed are about
--   connecting. Stream has reading and writing; Transfer and Received are about the bytes, Waits
--   about calls that wait and about closing.
-- Drivers.Keyboard: `convert_keys` of Kernel/Drivers/HID/Keyboard.cpp; Batches is about codes
--   that come in one after the other, and about releases.
-- Prelude: Boolean tests, lists, words and maps that the parts share.
--
-- State is passed explicitly. A step of the task manager that follows a null pointer or looks up a
-- missing key returns `none`. So does a panic. An entry of a page table is a record of its frame
-- and its flags; the word has no other bits that the code uses. The tables of tasks and groups are
-- functions from ids, since the manager only looks up and inserts. Machine integers are natural
-- numbers with the wrap-around written out, where the code can reach it.
--
-- Loops are structural recursion on what is left of a list or a count. `seek`, the search round
-- the ring of lists, takes fuel, one unit for each list of the ring; one turn of the ring is
-- enough when any list holds an id. `idle`, the wait of `refresh` for something to run, goes over
-- the list of the interrupts that come in.
--
-- `fold_carries`, the loop of the Internet checksum, takes fuel too: two rounds end it for every
-- 32-bit sum. `subtract_loop` of the regions has a unit for each rectangle and one more, since
-- each round splits one of the rectangles it was given. Coordinates are integers without
-- wrap-around: a screen is far from the limits of `long long`.
--
-- `close_node` takes fuel for the depth of a node. `count_headers` and `load_headers`, the loops
-- over an archive, take fuel: one unit for each header and one more end them. An archive in the
-- theorems holds files only; a header of a directory adds no file. A header's name is taken to end
-- within its field.
--
-- A segment's checksum is neither computed nor tested: `receive` has its test commented out.
-- Elsewhere spinlocks are left out, since each operation is a step of its own; only the locks of
-- the file system's nodes are part of the state, because `open` keeps some. The stacks of a new
-- task, their pages and the switch between them are left out. The table from endpoints to sockets
-- is left out as well: `receive_ip` is given the sockets of the endpoint.
--
-- Not modelled: the other drivers, interrupt tables and start-up, which are input and output to
-- devices; system calls, the table of pipes, the loader, events and the other network layers,
-- which stand on the parts above; the programs of user space besides the parts named; and the
-- copies of other projects' code, dlmalloc, MurmurHash and the stb headers.
pub mod Prelude
pub mod Memory
pub mod Common
pub mod Tasks
pub mod Networking
pub mod Ipc
pub mod Filesystem
pub mod Pipes
pub mod Drivers
pub mod Windows
