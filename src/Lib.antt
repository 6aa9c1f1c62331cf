-- ===== src/Lib.antt =====
-- Verification of switchflow, a library for HTTP proxies: the containers and buffers
-- (switchflow/util), the connection (switchflow/socketlib), the parsers and the writer of the HTTP
-- layer (switchflow/http), the event poller (switchflow/event), and the proxy on top of them
-- (sfrp/proxylib).
--
-- How the parts interact. A connection, by non_blocking_read, fills a read_write_buffer, and
-- writes one out by non_blocking_write. Its positions say how much of it holds data, has been
-- processed, and has been or may be written. header_parser::parse_headers scans the start line and
-- the fields of a message out of such a buffer and hands each piece to an i_header_receiver, which
-- in the proxy is header_handler: it stores the pieces in a message_buffer, whose fields come from
-- a header_cache that messages share, and learns from them how the body is coded;
-- body_parser::parse_body then takes over with the parser of the body's encoding, which moves the
-- positions over the bytes that belong to the body and asks an i_body_receiver to write them. All
-- parsers stop anywhere with INCOMPLETE, and go on with the next buffer where they stopped.
-- header_writer::write_header sends the start line and the fields of a message_buffer over a
-- connection in the same way, and goes on in a later call where the connection was not ready; an
-- error_response is a message that the proxy answers by itself. proxy_handler has one connection
-- to a client and one to its server, and a stream handler for each direction; libevent calls its
-- handle_event, which reads from both connections, hands what it read to the handlers, which write
-- it on, connects to the server when the request says where to, and asks for the next events. The
-- requests that wait for their response are elements of a pipeline_data_queue. Proxy and stream
-- handlers come from a pessimistic_memory_manager. queue hands items from thread to thread, and
-- pooled_list is a list with cells that are allocated beforehand.
--
-- Base (with Base/Tests, Base/Lists, Base/Results, Base/Loop): shared names, tests on numbers, lists,
--   outcomes with faults (a failed CHECK_CONDITION, a null pointer, no fuel), and loops.
-- Util/Buffer: switchflow/util/read_write_buffer.{hpp,cpp}. read_write_buffer is the record Buffer; its
--   members are functions of the same names from a Buffer to an Outcome. Util/Buffer/Valid has the
--   invariant, Util/Buffer/Content appending, Util/Buffer/Compare the comparison with a text, and
--   Util/Buffer/Unwritten what is still to be written.
-- Util/PooledList: switchflow/util/pooled_list.hpp; Values is about inserting and erasing a range,
--   Removed about remove_if, Assigned about clear and assign. Copies has a second list at the pool,
--   for the copy constructor and operator=, which Copied is about.
-- Util/MemoryManager: pessimistic_memory_manager.hpp; Held is about what its users hold.
-- Util/Queue: switchflow/util/queue.{hpp,cpp}, a step for each call of the system. Util/Queue/System
--   has the threads, Invariant (with Effects and Reachable), Safety and Progress what holds of them.
-- Socketlib: switchflow/socketlib/status.hpp. Socketlib/Os: the system calls, a parameter.
-- Socketlib/Connection: connection.{hpp,cpp}; States is about set_state, Read, Progress and Write
--   about the calls that read and write a buffer.
-- Event: switchflow/event/event.cpp and poller.cpp.
-- Http, Http/Scan: switchflow/http/http.{hpp,cpp}, its constants and scanning functions, with what
--   they find in Http/Scan/Token, Http/Scan/Take and Http/Scan/Offsets.
-- Http/Line: line_parser of http.{hpp,cpp}, with Http/Line/Total about every call.
-- Http/Header: switchflow/http/header_parser.{hpp,cpp}. parse_status_line is in Http/Header/StatusLine
--   and parse_headers in Http/Header/Fields; Http/Header/StatusTotal and Http/Header/FieldsTotal are
--   about every call of them.
-- Http/Body: switchflow/http/body_parser.cpp and end_connection_body_parser.cpp, with
--   Http/Body/Dispatch; Http/Body/Receiver is i_body_receiver.hpp.
-- Http/Body/ContentLength: content_length_body_parser.{hpp,cpp}; Total is about every call, Stream
--   about a body in several buffers.
-- Http/Body/Chunked: chunked_body_parser.{hpp,cpp} and switchflow/util/conversions.hpp; Size is about
--   the chunk size, Total about every call, Rounds and Decode about a whole body.
-- Http/Message: header_buffer.cpp, header_cache.cpp and message_buffer.cpp; Room has the invariant of
--   their buffers, Owned that of a message and its cache, Moved which headers go where, Find is about
--   looking up a name, and Buffers is get_const_buffers.
-- Http/Handler: header_handler.{hpp,cpp} and get_http_version of request_buffer_wrapper.cpp; Values and
--   Names are about the fields as they arrive, Receiver has it as the receiver of the header parser.
-- Http/StartLine: start_line_parser.{hpp,cpp}, and parse_token and parse_char of http.cpp over a
--   const_buffer; Token is about the scan, Total about every call.
-- Http/Writer: switchflow/http/header_writer.{hpp,cpp}, with the separators of static_strings.cpp.
--   Pieces (Strings, Fields, Advance) is about what is left to write in each state, Sends (Start,
--   Written) about every call, Render about a call from the start. Http/ErrorResponse: error_response.cpp.
-- Sfrp/Proxylib/PipelineQueue: sfrp/proxylib/pipeline_data_queue.{hpp,cpp}; Fifo is about the order of
--   the elements, Lifetime about their creation and deletion.
-- Sfrp/Proxylib/StreamHandler: sfrp/proxylib/i_proxy_stream_handler.hpp and proxy_stream_interface.cpp.
-- Sfrp/Proxylib/ProxyHandler: sfrp/proxylib/proxy_handler.{hpp,cpp}. World has the state,
--   ServerConnect, HandleStream, HandleEvent and Lifecycle the operations; Contract is what they
--   rely on, Invariant what they keep; Reads, Processes, Polls, Connects, Rounds, Notifies, Ends and
--   Handles are about their parts, up to handle_event, Stalls about handlers that leave bytes behind.
-- Tests, and Buffers, Headers, Bodies, Messages, StartLines, Connections, Writers,
--   Queues, Threads, Pools and Proxies (over System and Handlers in it): runs at concrete messages,
--   systems and lists.
--
-- State and operations. A C++ object is a record of its data members; a member function takes the
-- record and gives the new one. A parser works on a buffer and a receiver that it does not own, so
-- that it steps a World of all three. The receivers are classes that their users implement: a
-- record of functions over a state of any type, of which those of the header receiver may abort,
-- as those of header_handler do. CHECK_CONDITION aborts, which is the fault check_failed. Bytes
-- are natural numbers, and the unsigned sums of the source are taken % 2 ^ 32 where they could
-- wrap. System calls are functions over a state of the system, of which the theorems assume what
-- POSIX documents: a write takes a number of bytes from the front of those it is given, a read
-- hands on the bytes that have arrived, and EINTR comes finitely often. A pointer to an object of
-- a pool is a number. The semaphores and the mutex of queue are those of POSIX, and each thread
-- may stop between any two of its calls. The handlers of the proxy's streams are a parameter, as
-- every application has its own: they may change the buffer that they are given and the connection
-- that they write to, COMPLETE leaves nothing to write on, and a handler of responses answers
-- INCOMPLETE only for a client that is not ready to be written to. Both directions use the objects
-- of one World, so that what the one does to a connection the other sees.
--
-- Fuel. The loops of the parsers run on fuel, in parse_status_line 4, in parse_content_length_body
-- and parse_line 2, in chunked_body_parser::parse_body 5 n + 6, in parse_headers 4 n + 4 and in
-- parse_start_line n + 1 for n bytes that are left to process: a round passes over a byte or goes
-- on to a state of lower rank, of which there are so few that the fuel is enough.
-- non_blocking_write takes more than the bytes to write and the interrupts to come, since each
-- round writes a byte, is interrupted, or ends; write_header takes more than that for the whole
-- message, and more than 4 n + 7 rounds for n fields; remove_if takes the number of elements;
-- handle_stream takes more than twice the bytes that may still be read and the interrupts to come,
-- and two, since a round reads something, is interrupted, hands on what was read before, or is the
-- last.
--
-- Not modelled: the event loop, the acceptor, addresses and logging, which do input and output;
-- the HTTP stream handler (sfrp/app/http_proxy_stream_handler.cpp), urls, the configuration and
-- the host rules, and the copies of and exchanges between pooled lists, which are still to come;
-- the clients, the samples, the main programs, and scope_guard.hpp, which is a copy of another
-- project's.
mod Base
pub mod Util
pub mod Http
pub mod Socketlib
pub mod Event
pub mod Sfrp
mod Tests
