-- ===== src/Lib.antt =====
-- NeoGroupCaptchaBot: a model of the bot's core, a Telegram client in C++ whose main thread makes
-- sessions, whose looper thread hands the responses and updates of the Telegram client library
-- (td) to them, and whose thread pools run their slow tasks.
--
-- The parts, and the files that model them:
--
-- * Common and its children hold the names that all files share: lists measured by native
--   numbers, Boolean tests, byte strings, and the integers `ℤ` with their conversion to
--   `uint64_t`.
-- * UnorderedMap is what the maps use of `std::unordered_map`: an association list. HashMap is
--   src/utils/HashMap.h and ConcurrentHashMap is src/utils/ConcurrentHashMap.h, a function for
--   each method (`putIfAbsent` is `put_if_absent`, and so on); `Entry::setValue`, and a write
--   through the pointer that `get` gives, are `set_value`. A call of a ConcurrentHashMap is one
--   step, as it holds the mutex.
-- * Dictionary is an interface that both maps implement, with what its laws imply.
-- * ThreadPool is src/utils/CachedThreadPool.cpp: the record has the members of `Impl`, and
--   `onWorkerExit` is `remove_worker` and then `settle`, which hold different locks. A worker's
--   `Phase` is its place in `Worker::run`. ThreadPool.System runs the pool, its callers and its
--   workers as a list of events in any order; a call of `execute`, which holds no lock, is four
--   events there (the test of the flags, the count of workers, the decision and the action), and
--   calls may overlap. Progress there follows a pool to its end. ThreadPool.Monitor takes `getTask` apart
--   at its waits, and ThreadPool.Termination `awaitTermination`: relations of steps between states
--   that hold who is blocked on the condition variable; a wait may end for no reason.
-- * Td has the data of the client library that the code reads and sends. State has the records of
--   src/core/manager/ClientSession.h and src/core/manager/SessionManager.h; a closure that the
--   code stores is a constructor (`Callback`, `Task`, `MessageHandler`) with what it captures,
--   where `this` is the id of the session. Requests is `sendRequestWithClientId` and what it
--   calls, and `async` of src/utils/SyncUtils.cpp; Requests.Sending takes such calls of several
--   threads apart at their three effects.
-- * Session and its children are src/core/manager/ClientSession.cpp: Session.Auth has
--   `handleUpdateAuthorizationState` with its callbacks and tasks, Session.Options
--   `handleUpdateOption` and the server's clock, Session.Update `handleUpdate`, Session.Echo the
--   message handler that src/core/startup.cpp installs. Session.Trace is the life of one session
--   as a list of calls, and Session.Machine the diagram of its states.
-- * Manager is src/core/manager/SessionManager.cpp: the sessions, `dispatchResponse` and
--   `runLooper`.
-- * Program puts the threads together as src/core/startup.cpp does, as a list of events; a call
--   of a session is one event, with the requests that it sends and the tasks that it gives to a pool. Program.Arguments is how `main` takes its settings, Program.Clock
--   the time of day that it writes in the log, and Program.Start `main` from the settings on;
--   Program.Grants follows the authorization of each session through the steps of the program, and
--   Program.Messages what the steps do to the messages that are sent. In Program a task may be run at
--   any time; Program.Threads adds the workers of the two pools, which run the tasks in their hands.
-- * TextUtils, FileUtils, Uuid, IoUtils and Rva are the files of src/utils with these names
--   (`splitString` and the number parsers, the two functions on paths, `randomUuid`,
--   `wait_for_input`, and `access` with `at`). FileMemMap is src/utils/FileMemMap.cpp, with the
--   descriptors and the mappings of the process as its state.
-- * SharedBuffer is src/utils/SharedBuffer.cpp: `SharedBufferImpl` with its size and its bytes,
--   in SharedBuffer.Handles the handles that share them, as places in a list, and in
--   SharedBuffer.Owners when the last handle of one goes. Single has what
--   the code uses of the type `float`, with its rounding. SharedMemory is
--   src/utils/shared_memory.cpp, with the open descriptors as its state, and AutoCloseFd is
--   src/utils/auto_close_fd.cpp.
-- * ProcessUtils is src/utils/ProcessUtils.cpp, over what the files of /proc hold. ConfigManager
--   is src/utils/config/ConfigManager.cpp, over the stores that MMKV opens. Log is
--   src/utils/log/Log.h, and Session.Texts has the texts that src/core/manager/ClientSession.cpp
--   writes to it.
-- * Examples applies the theorems to concrete inputs.
--
-- A method gives the state after it. An exception that leaves a method, and a read through a null
-- pointer, are values (`Outcome`, `Exit`). What is outside the repository is an argument: the
-- time, the result of `pthread_create` (`Spawn`), the line that is read from the terminal, the
-- responses that `receive` gives, the results of `poll` and of the system calls of FileMemMap and
-- SharedMemory, whether `malloc` succeeds, what `vsnprintf` makes of a format, the numbers of the
-- random distributions, `atoi` and `getenv`.
--
-- Bounds and fuel: `uint64_t` and `size_t` are numbers below 2^64 with the wrap-around written
-- out where the code adds or multiplies; the product of two `int`s in the message handler wraps
-- at 2^32, as the machine's multiplication does. `split_loop` has fuel: the length of the text
-- and the separator together, and one round more; each round uses at least one byte if the
-- separator is not empty. All other loops follow a list. A number is printed by a loop with as
-- much fuel as the number and one round more: each round divides by a base of 2 at least. Sizes
-- of a SharedBuffer go up to 1.5 * 10^9 bytes in its theorem, as the new size must be an `int`.
--
-- Not modelled: the calls of the log themselves, the protection flags of a mapping, and tasks
-- that throw.
pub mod Common
pub mod UnorderedMap
pub mod HashMap
pub mod ConcurrentHashMap
pub mod Dictionary
pub mod ThreadPool
pub mod Td
pub mod State
pub mod Requests
pub mod Session
pub mod Manager
pub mod Program
pub mod TextUtils
pub mod FileUtils
pub mod Uuid
pub mod IoUtils
pub mod Rva
pub mod ConfigManager
pub mod ProcessUtils
pub mod AutoCloseFd
pub mod Log
pub mod FileMemMap
pub mod Single
pub mod SharedBuffer
pub mod SharedMemory
pub mod Examples
