-- ===== src/Lib.antt =====
-- Verification of the servers of ASCII drawings and of the NachOS kernel parts beside them.
--
-- The repository holds a server of drawings over HTTP with its file system, a simulation of client,
-- router and server as threads, a router between web clients and servers, and a NachOS kernel. Paths
-- are from the repository's root.
--
-- Prelude: natural numbers with their Boolean tests, lists, and the lemmas that the parts share.
-- Text: std::string as lists of bytes (find, rfind, substr, c_str), with their laws in Text/Laws; the
-- loop that cuts a text at its slashes in Text/Split; maps by text in Text/Maps. A call that can throw
-- std::out_of_range, follow a null pointer, run over the end of a buffer or run out of fuel has a
-- result in Text.Run.
--
-- FileSystem: Integrated_Networks_OS_Project/Server/FileSystem (FileSystem.c, Structures.c).
--   Disk is disk.dat: its bytes and its size; fread and fwrite with their behaviour at the end.
--   Blocks has checkBlockAvaible, extractContent, allocateContent and extractBlock; Directory has
--   existFile, existASCII, allocateInDirectory and writeFile; Drawing has the loop by which a server
--   collects a drawing; Mount has what Server::MountSystem and the constructor of
--   ColabProtocolHandler write. Allocate, Chain, Content, Entry, NewEntry and WriteFile hold the
--   proofs.
--   Catalogue is the abstract view of the file system, a list of names and texts, with the disks that
--   represent one; its children Search, Reading, Writing and Mounting relate the two.
--
-- Server: Integrated_Networks_OS_Project/Server/Server.cpp.
--   Http has translateHttpToAscii and translateAsciiToHttp, Protocol has validateRequest, Task has
--   handleRequest and task, with what the Reads deliver as a list of texts. Replies, Answers, Sending
--   and EndToEnd hold the proofs. Run has run in the mode of threads: the server's socket, and a list
--   of events, each a new connection or a turn of one client's thread, up to its next Read, Write or
--   Close. A thread whose loop does not end makes no more calls, and the others go on. Streams states what run relies on of the system's sockets; Turns, Frames, Serving,
--   Accepting and Ending hold the proofs, and Whole joins the file system, the server and its sockets.
--   Main has the arguments of main.cpp and the child of the mode of processes, Arguments their proofs.
--
-- Sockets: Integrated_Networks_OS_Project/Server/VSocket.cpp, Socket.cpp and SSLSocket.cpp. The calls of
--   the operating system (Net) and of OpenSSL (Ssl) are parameters: functions on a state of their own.
--   A member function returns, throws or aborts, and what its calls did stays done. Fields that no
--   constructor sets keep what the memory held. Connecting and Descriptors hold the proofs.
--
-- Simulation: Integrated_Networks_OS_Project/Simulacion.
--   Buffer is SharedMemory.cpp, Handler is ColabProtocolHandler.cpp, Adapter is
--   RequestColabHTTPAdapter.h, and Threads has the run functions of Client.cpp, Tenedor.cpp and
--   DrawingServer.cpp as turns from one wait to the next, with every interleaving of the turns that
--   the semaphores allow; Threads/Baton, Threads/Round and Threads/Exit hold their proofs. The threads
--   reach the file system through Handler.
--
-- Fork: ASCII_Server_Client_Project/TenedorASCIICliente/src/Server/forkServer.cc.
--   Registry has the tables of servers with the messages and the monitoring that change them,
--   Requests what a client is answered, with a drawing's way through both in Routing. The network is a
--   parameter: what an exchange delivers.
--
-- AsciiServer: ASCII_Server_Client_Project/TenedorASCIICliente/src/Server/ASCIIServer.cc, with
--   getSystemInfo of its src/FileSystem/FileSystem.c, over the file system of FileSystem.
--
-- Nachos: Integrated_Networks_OS_Project/NachOSx64/code (userprog/bitmap.cc,
--   userprog/nachostabla.cc, threads/synch.cc, userprog/addrspace.cc, userprog/exception.cc, and
--   what exception.cc calls in machine/machine.cc, machine/translate.cc and machine/sysdep.cc). A
--   failed ASSERT and an access outside an array are results in Nachos/Outcome. Synch/Locks lets
--   threads acquire and release one lock in any order, and Synch/Barriers, with its proofs in
--   Rounds, lets them meet at a barrier in any order of their steps. AddrSpace has the constructors
--   and the destructor of an address space over the map of frames (BitMap) and main memory; its
--   children hold the proofs, with several processes at once in Processes and Shared. Kernel is the
--   state on which system calls work, with registers, address translation, the console's semaphore
--   and Unix; Syscalls and its children Memory, Files, Semaphores and Sockets have the handlers of
--   exception.cc, over OpenFiles, Synch and AddrSpace; UserMemory, StoreMemory, Reading, Writing,
--   Opening, Waiting, Forking and Connections hold the proofs. Unix (open, read, write, close,
--   socket, connect) is a parameter: functions on a state of its own.
--
-- Tests: runs of the theorems at concrete inputs.
--
-- Bounds and fuel. The token loop runs length + 1 rounds, the search of the directory 17 (272 bytes),
-- the loop of allocateInDirectory 17, allocateContent 255, the sending loop length + 1, and a read of
-- the shared buffer 1025. Each is enough wherever the C++ loop ends: a round consumes a byte or moves
-- by a fixed step. drawing runs 257 rounds, more than the 256 blocks that a byte can name; a chain
-- that closes on itself makes the C++ loop endless, and the model says so by running out of fuel. A
-- size_t wraps at 2 ^ 64, a byte at 2 ^ 8; sizes of texts are bounded where that matters.
-- The loop over a segment's pages runs once for each page up to its last; the loop of Open has the 128
-- places of its buffer.
--
-- The task of one client, where its request has a reply, ends after as many turns as it has Reads and
-- Writes, and one for Close.
--
-- Not modelled: the sockets of the other project, an earlier version of those of Sockets; fork,
-- which makes two processes of one; printing for diagnosis and memory management, which are I/O;
-- the scheduler of NachOS, its instruction simulator (Machine::Run), its devices and its file
-- system, a copy of another project; the three test copies under PruebasServidor. Two accesses
-- behind a buffer on the heap are not told apart from accesses inside it: extractBlock reads 256
-- bytes into the 255 that createBlock allocates, and the model takes the last one as held there;
-- and strcmp of an entry that has 16 bytes and no NUL with a name that begins with the same bytes
-- reads behind NameFile, which the model takes to end there. No comparison with a name of at most
-- 15 bytes does that.
pub mod Prelude
pub mod Text
pub mod FileSystem
pub mod Server
pub mod Nachos
pub mod Simulation
pub mod Sockets
pub mod Fork
pub mod AsciiServer
pub mod Tests
