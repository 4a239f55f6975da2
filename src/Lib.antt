-- ===== src/Lib.antt =====
-- Chucho, a C++ logging library: the parts of it that decide what is logged, where and how.
--
-- An application gets loggers by name (logger.cpp). The names make a tree; a logger without a level
-- inherits its parent's (level.cpp), and an event that a logger permits goes to the writers of the
-- logger and of its ancestors. A writer (writer.cpp) asks its filters and hands the event to its
-- derived class, with the text that a formatter makes of it (pattern_formatter.cpp). Events that
-- wait are kept as bytes (event_cache.cpp), which async_writer.cpp does for a slow writer. What
-- goes wrong is reported to the status manager (status_manager.cpp). Texts are helped by utf8.cpp
-- and text_util.cpp.
--
--   Base          shared names, texts as lists of bytes, tests, integers
--   Utf8          utf8.cpp: find_invalid, escape_invalid, validate
--   TextUtil      text_util.cpp: tokenize, trim, to_lower, parse_byte_size
--   Status        status_manager.cpp: the kept statuses, the observers, the level
--   Level         level.cpp, include/chucho/level.hpp: the levels and their registry
--   Logger        logger.cpp: get, the tree of loggers, levels, writers, write
--   Event         include/chucho/event.hpp, marker.cpp: events and markers
--   EventCache    event_cache.cpp: the bytes of an event (Format), and the queue of events in a
--                 chunk of memory and in files (Queue)
--   AsyncWriter   async_writer.cpp: the threads that log and the worker that writes
--   Pattern       pattern_formatter.cpp: the parser of patterns and the pieces' texts
--   Writer        writer.cpp, level_filter.cpp, level_threshold_filter.cpp,
--                 duplicate_message_filter.cpp: a writer and its filters
--   CacheAndRelease
--                 cache_and_release_filter.cpp: a filter that holds events back in a cache
--   FdWriter      file_descriptor_writer.cpp, platform/posix/file_descriptor_writer_posix.cpp: the
--                 buffer in front of a descriptor
--   FileWriter    file_writer.cpp, platform/posix/file_writer_posix.cpp: a file that is watched,
--                 and opened anew
--   Roller        numbered_file_roller.cpp, and sliding_numbered_file_roller.cpp (Sliding): what a
--                 roll does to the files; rolling_file_writer.cpp with
--                 size_file_roll_trigger.cpp (Sized); the names that time_file_roller.cpp
--                 makes (TimeNames)
--   Policy        security_policy.cpp: limits on configured values
--   Interval      interval_file_roll_trigger_memento.cpp and interval_file_roll_trigger_factory.cpp
--   EmailWriter   email_writer.cpp, level_threshold_email_trigger.cpp: mails of the last events
--   QueueWriter   message_queue_writer.cpp, formatted_message_serializer.cpp: batches of events
--   Config        configurator.cpp (Variables), properties.cpp (Properties) and
--                 config_file_configurator.cpp (Process, Log4cplus): from lines to the calls that make writers
--   Tests         the theorems at concrete inputs, and runs
--
-- State is a record and an operation a function on it; loggers stand in a heap and are known by
-- their index, since they are shared. An exception, or a call through a null pointer, is `none` or
-- a constructor of a result type; what only an assert guards is undefined in the log4cplus
-- configuration. Numbers are natural numbers and wrap where the code's do.
--
-- Loops run on fuel. In Logger, the length of a name bounds the nested calls of get_impl, and an
-- index bounds the number of a logger's ancestors, since a parent stands before its children in a
-- well-formed heap. In Pattern and Utf8 each round consumes a byte, so the length of the text is
-- enough; in FdWriter one round may only flush, so it is one more. In TextUtil and Logger.split
-- each round consumes a delimiter. In Config, a writer that holds writers needs one unit for each
-- writer on the way, and no fuel is enough for writers that hold each other. In TimeNames each
-- round takes a percent sign away where dates have bytes and no percent sign, unless a doubled one
-- makes the code look at the same place for ever.
--
-- What the code asks of the system is a parameter: the host's and the process's names, dates, the
-- diagnostic context, regular expressions, the clock, compressed contents, what the file system
-- answers to a file_writer, whether a send succeeds, what mementos and factories do, and what the
-- configuration does on initialization. Not modelled: reference counts and remove_unused_loggers,
-- the event cache's progress callback, the rolls of time_file_roller, the clock of the triggers of
-- rolls, the clients of network writers, JSON and YAML configurations, what compression makes of a
-- content, serializers of other formats, and other platform code. Mutexes are held over whole
-- operations, so each operation is one function; AsyncWriter lets the operations of the threads
-- follow each other in any order.
pub mod AsyncWriter
pub mod Base
pub mod CacheAndRelease
pub mod Config
pub mod EmailWriter
pub mod Event
pub mod EventCache
pub mod FdWriter
pub mod FileWriter
pub mod Interval
pub mod Level
pub mod Logger
pub mod Pattern
pub mod Policy
pub mod QueueWriter
pub mod Roller
pub mod Status
pub mod Tests
pub mod TextUtil
pub mod Utf8
pub mod Writer
