-- ===== src/Lib.antt =====
-- CANcept, a desktop application that shows, records, sends and manipulates the traffic of a CAN bus:
-- a model of the logic between the bus and the screen, with the theorems that make it correct.
--
-- The parts and how they meet. A frame that the socket library reads goes through the CAN handler
-- (`src/can_handler`), which publishes it as raw bytes (`CanRawHandler`) and, where a DBC file
-- describes it, as physical values (`CanDbcHandler`). The descriptions come out of `DbcParser`,
-- which reads the text that `FileParser` joins from the lines of the file. What the user sends or
-- replays (`src/sending`) is encoded by `CanDbcHandler`, passes the rules of the manipulation handler
-- (`src/manipulation`), waits in `ScheduledItemQueue` for its time, and is logged through `SpscRing`
-- (`src/core/util`) by a thread of its own. The parts talk by events of `src/event_broker`: here the
-- event that a handler takes is its argument and the event that it publishes is its result.
--
-- Files of the model, with the code of each:
--   Core/Dto             src/core/dto/can_dto.hpp and dbc_dto.hpp: the structs.
--   Core/Float           the types double and float, with the operations that the code uses.
--   Ring                 src/core/util/spsc_ring.hpp: push, pop, empty. Ring/Interleave cuts them at
--                        their shared accesses and runs two threads in any order.
--   Manipulation         src/manipulation/types/manipulation.hpp and src/manipulation/service/: the
--                        triggers, effects and strategies; Handler is ManipulationHandler::inject,
--                        applyRawStrategy, applyDbcStrategy and evaluate. Handler/Selects describes
--                        which entries are applied.
--   DbcParser            src/can_handler/dbc_handler/dbc_parser.cpp and file_parser.cpp. Monad is the
--                        state of the parser and its early returns, Lexer the functions for one token,
--                        Range calculatePhysicalRange, Signal, Message, Sections and Values the
--                        sections of a file, File parseDbc and parseFile. Termination has the rules
--                        and the theorem on its loops.
--   CanDbc               src/can_handler/can_communication_handler/: Words has the shifts and the
--                        words of a frame, Signal parseReceivedSignal and parseSendSignal, Handler
--                        the loops and the table of CanDbcHandler, Raw CanRawHandler. Fields,
--                        Bytes, Placement, Sign and Encode lead to RoundTrip; Range relates
--                        it to the range of the parser, Forward is about Raw.
--   Queue                src/sending/worker/scheduled_item_queue.cpp. Queue/Steps cuts its operations
--                        between the lock and the semaphore and runs any number of threads.
--   SendingModel         src/sending/model/sending_model.cpp. State has the members and the operations on
--                        the config and the raw frame, Selection and Values those on signals, Send
--                        what the handlers are called with, Tree the item model. Keys is about
--                        makeSignalKey, Cache about a repeated transmission against a single one,
--                        Range about the ranges of values, Session about all calls together.
--   Consumer             src/sending/worker/sending_consumer_worker.cpp: the thread that sends the
--                        items of the queue, as steps. Timely, Counted, Progress and Conserved
--                        are about its runs.
--   Replay               src/sending/worker/replay_producer_worker.cpp and sending_functions.hpp: the
--                        items that a recording leads to. Spread and Times are about their
--                        order, Items about when they begin. A wait, of a pause or at a full
--                        queue, is an argument that tells how it has ended.
--   Repeated             src/sending/worker/repeated_producer_worker.cpp: the thread that has items made
--                        at an interval. Ticks is about the times that they are made for.
--   CsvReader            src/can_stream/reader/csv_reader.cpp: the position in a file of records.
--   CsvWriter            src/can_stream/writer/csv_writer.cpp: the lines of a file. Hex, RoundTrip,
--                        Fields, Frames, Columns, DbcFrames, Opening and Reading lead from the number,
--                        field, line and file that are written to those that CsvReader reads.
--   CanConverter         src/can_stream/can_converter.cpp: the export of a recorded file; Export
--                        and DbcExport are about reading the exported file.
--   Paging               src/logging/model/logging_detail_proxy.cpp, with the buttons of
--                        src/logging/view/components/logging_detail_view.cpp: the pages of a file.
--   Prelude              lists, texts, bits, powers of two and integers over the native numbers.
--
-- Numbers. An unsigned integer is a natural number, reduced by `% 2 ^ w` where the code can wrap. A
-- char of a frame and of a text is its byte. A double is an element of an abstract type, a parameter
-- of the model (`Core.Float.Float`) of which nothing is assumed; `Core.Sample.whole` is an instance
-- over the integers, which the tests and the instances of the theorems compute with. The random
-- numbers of a manipulation are a parameter too.
--
-- Bounds and fuel. A loop of the parser runs on fuel, one more than the length of the file when it
-- starts: each round that goes on takes a byte at least. The other loops are over lists. A shift that
-- C++ leaves undefined has the result 0, and the theorems ask that a signal lies within its 64 bits.
-- A ring has any capacity of at least two slots, a queue the 32 items of the code.
--
-- Not modelled: the widgets, views and delegates, styles and themes; settings and JSON; how a
-- thread sleeps, and the time that it waits; a wait of a replay that never ends; exceptions that
-- end a thread; the binary format of MDF4 files; the text of a double, which is an argument;
-- formulas, which are the ExprTk library; the socket library and the event library, whose calls are
-- arguments and results here.
pub mod Prelude
pub mod Consumer
pub mod Core
pub mod Replay
pub mod Ring
pub mod SendingModel
pub mod Manipulation
pub mod CanConverter
pub mod CsvWriter
pub mod Paging
pub mod Repeated
pub mod DbcParser
pub mod CanDbc
pub mod Queue
pub mod CsvReader
