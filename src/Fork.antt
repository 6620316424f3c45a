-- ===== src/Fork.antt =====
-- ASCII_Server_Client_Project/TenedorASCIICliente, src/Server/forkServer.cc: the router between the
-- clients of the web and the ASCII servers.
pub mod Registry
pub mod Requests
