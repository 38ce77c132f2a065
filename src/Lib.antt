-- ===== src/Lib.antt =====
-- A verification library for the SMC server and client: a file server for one network with its
-- console client, over a binary protocol on TCP.
--
-- The parts and how they interact. Both programs build messages with the editor of Shared and send
-- them as frames, a size of four bytes and the content. The server holds a session per client: it
-- reads a frame, takes the request's id from its first byte and hands the rest to a handler, which
-- checks what it requires of the client, runs and answers. A listing travels as a buffered file list
-- inside an answer; the content of a file travels behind an answer, one frame for each buffer.
--
-- The files:
-- - Common: shared names and lemmas; Common/Failing is code on a state that may give up.
-- - Wire: Shared/src/network/array_editor.cpp and Shared/include/Shared/network/array_editor.ipp;
--   Wire/Digits has the little-endian numbers, Wire/Analyze the extractions, Wire/RoundTrip
--   messages as rows of fields. `Analyzer` is ArrayAnalyzer; an ArrayBuilder is its bytes.
-- - Text: Shared/src/util/string.cpp, with std::stoi and std::to_string; Text/Utf8 has the
--   encoding of a code point by the standard.
-- - Version: Shared/src/util/version.cpp.
-- - Protocol: the enumerations of Shared (requests, errors, roles, file types). An enumeration of
--   C++ holds any number of its underlying type, so that each data type has a constructor for the
--   rest.
-- - Network: sendInt, readInt, sendBuffer and readBuffer of both programs. Boost.Asio is a record
--   of two operations, a parameter; Network/Stream states what a connection does while it is up.
-- - Paths: std::filesystem::path on Windows, by what its iterator shows; Paths/Normal is about
--   normal paths.
-- - Transfer: the loops that send and receive the content of files, in the handlers
--   IOGetFileContent and IOSetFileContent of both programs and in the client's FileDownloader and
--   FileUploader.
-- - Bfl: Server/src/network/bfl/encoder.cpp and src/network/bfl/decoder.cpp.
-- - Server: Users is Server/src/users/manager.cpp, Uif the user information files, Names the file
--   names of Server/src/io/sfs.cpp, Reply the ResponseBuilder, Handler the base class RH,
--   Requests the handlers that touch no file, Sfs Server/src/io/sfs.cpp and directories.cpp with
--   the changes of files in Sfs/Changes, FileWork and Io the handlers of files, IoContent the two
--   that transfer contents, Variables and ConsoleText the two resolvers of
--   Server/src/util/resolver, Console Server/src/io/console.cpp, Session
--   Server/src/network/client.cpp with the map of handlers; Session/Access is about who may ask
--   for what, Session/Versions about the exchange of versions, Session/Start about the first
--   messages, and FileServer puts the handlers of files into it. A session is a record; an
--   operation takes it and gives it back. The disk is a record of operations, Disk, a parameter;
--   where a session has a disk, the state of its connection is both.
-- - Client: Connection is src/network/client.cpp with Connection/Exchange about both programs,
--   Handler src/network/request/handler.cpp, Requests the handlers of src/network/request that
--   touch no file, Files the others with the recursive listing, Answers what becomes of a
--   response, Login a login between both programs.
-- - Shell: CommandLine and EnvVars are src/shell/command_line.cpp and
--   src/util/env_var_str_resolver.cpp, Commands Client/include/shell/commands_infos.hpp, Dispatch
--   src/shell.cpp, Run, Perform and Help the commands in src/shell/commands, Prompt a round of
--   the shell. The map of the commands is a list, in whatever order the map goes through them.
-- - Smcl: the language files of the client. Lexer, Parser with Steps, Stream and Formatter are
--   smcl_lexer.cpp, smcl_parser.cpp, smcl_loader.cpp and smcl_formatter.cpp of src/shell/lang.
-- - Settings: the property tree of Boost, a parameter. Client/Config is src/shell/config.cpp, and
--   Server/Config Server/src/server/config.cpp, where an exception that is not caught is a
--   result.
-- - Tests: the theorems at concrete inputs.
--
-- Numbers are native; a cast to w bits is `% 2 ^ w`. The loops of the transfers run on the number of
-- buffers as fuel, with a status `stuck` of its own: the theorems say that they end `done`. The parser
-- runs on two rounds more than there are tokens, the lexer on one more than there are bytes: both are
-- shown to be enough. Behind the last token the lexer gives the end of the file, or its error, forever.
-- A number that no `int` holds leaves the whole language file undefined.
-- A fault, undefined behaviour of C++, is a value of the model, and the theorems exclude it.
--
-- The recursion of `canLexicallyAccess` has two rounds more than the path has names, which is shown to
-- be enough.
--
-- The recursive listing of the client runs on rounds that bound the depth of the directories.
-- Threads meet in the console of the server, where only the queue is locked: its steps come in any
-- order, and between two pieces of a message too. What a thread without a client writes directly is
-- one line in one step.
-- A system command may change whatever is around a session, its disk for one; the session holds the
-- commands that were run.
--
-- Not modelled: the messages to the console that a function prints on its way, exceptions, the threads
-- of the server, the file system itself, the commands that only show, configure or transfer.
pub mod Common
pub mod Text
pub mod Wire
pub mod Version
pub mod Protocol
pub mod Network
pub mod Paths
pub mod Transfer
pub mod Bfl
pub mod Server
pub mod Settings
pub mod Client
pub mod Shell
pub mod Smcl
mod Tests
