-- ===== src/Sockets.antt =====
-- The socket classes of Integrated_Networks_OS_Project/Server: VSocket.cpp, Socket.cpp and
-- SSLSocket.cpp, over the calls of the operating system and of OpenSSL, which are parameters.
pub mod Net
pub mod VSocket
pub mod Stream
pub mod Ssl
pub mod Connecting
pub mod Descriptors
