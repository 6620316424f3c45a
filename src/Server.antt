-- ===== src/Server.antt =====
-- Integrated_Networks_OS_Project/Server/Server.cpp: the piece server, which answers HTTP requests by
-- way of the BEGIN/.../END protocol. Texts that reach a function as `const char *` have no NUL.
pub mod Http
pub mod Protocol
pub mod Task
pub mod Run
pub mod Replies
pub mod Answers
pub mod Sending
pub mod EndToEnd
pub mod Streams
pub mod Turns
pub mod Frames
pub mod Serving
pub mod Accepting
pub mod Ending
pub mod Main
pub mod Arguments
pub mod Whole
