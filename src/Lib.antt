-- ===== src/Lib.antt =====
-- async_task_worker: a worker that runs Python coroutines from a priority queue, with futures for
-- the callers and a cache for the results, and the cache library it uses.
--
-- The parts, from the callers down, with their files from the repository's root:
--   Worker      src/async_task_worker/core.py, `AsyncTaskWorker`. `Worker` is its state: the tasks by
--               id, the queue, the futures and the pool. `add_task`, `cancel_task`, the callbacks
--               `on_task_started` to `on_task_cancelled`, `get_task_info` bear the names of the
--               methods. Worker/Maintenance has `cleanup_old_tasks`, `get_all_tasks`,
--               `get_task_future`, `start` and `stop`; Worker/Waits has `wait_for_tasks` and
--               `wait_for_any_task`, Worker/Caching `invalidate_cache` and `clear_cache`. Of
--               src/async_task_worker/pool.py, Worker/Process has `_process_task`, which calls the
--               callbacks, Worker/Loop the worker loops with the calls that other tasks make
--               meanwhile, and Worker/Serve some iterations of a loop that is left alone.
--   Queue       src/async_task_worker/queue.py, `TaskQueue` and `QueueStats`. Queue/Heap stands for
--               `asyncio.PriorityQueue`: the items in the order in which they are handed out.
--   Pool        src/async_task_worker/pool.py, the bookkeeping of `WorkerPool`.
--   Executor    src/async_task_worker/executor.py, `TaskExecutor.execute_task`, over a cache manager,
--               a task body and a callback that are parameters.
--   Status      src/async_task_worker/status.py, `TaskInfo` and the throttling of its progress.
--   Futures     src/async_task_worker/futures.py, `TaskFutureManager`. A future is an object at an
--               address of a store, and the manager maps a task to an address.
--   Exceptions  src/async_task_worker/exceptions.py, the errors and `ErrorHandler.handle_error`.
--   TaskCache   src/async_task_worker/adapters/cache_adapter.py, `AsyncCacheAdapter`, and the key
--               function that `add_task` makes.
--   Cache       src/async_cache/core.py, `AsyncCache`, over any `CacheAdapter`; Cache/Keys has the
--               context of a call and the default key.
--   Memory      src/async_cache/adapters/memory.py, `MemoryCacheAdapter`, and the protocol
--               `CacheAdapter` of src/async_cache/core.py.
--   Redis       src/async_cache/adapters/redis.py, `RedisCacheAdapter`, over a Redis client and a
--               serializer that are parameters; Redis/Server has what a connected server does,
--               Redis/Simulated a server in memory that does so.
--   Serialization
--               src/async_cache/serialization.py, `MsgPackSerializer`. Serialization/Values has the
--               Python values, Serialization/Documented what the MsgPack library does.
--   KeyUtils    src/async_cache/key_utils.py, key functions.
--   Events      src/async_events/event_manager.py, `EventManager` and `GroupFilter`.
--   SseClient   src/async_events/sse_client.py, the lines and events of a response; SseClient/Client has
--               the events that were received and the waits for them.
--   Registry    src/async_task_worker/registry.py, the functions by task type.
--   Api         src/async_task_worker/api.py, the status codes of errors and the routes that read and
--               cancel a task; Api/Tasks has the routes that create and list tasks, the list of task
--               types and the health of the service.
--   Base        the names and lemmas that the parts share: Boolean tests, lists, texts, a Python
--               dictionary as an association list in order of insertion, and the integers.
--
-- How they interact: the worker puts an item into the queue; a worker loop of the pool takes it,
-- calls `on_task_started`, runs the executor, and reports the outcome through the callbacks, which
-- write the task's record and settle its future. The executor asks the task cache before it runs a
-- body, the task cache is an `AsyncCache` with its own key functions, and the cache stores in an
-- adapter. The laws that the cache needs of an adapter are the record `IsLawful` of Cache/Lawful,
-- which `memory_lawful` fills for the memory adapter.
--
-- Conventions: a critical section under an asyncio lock is one step, a method that takes its lock
-- twice is two steps. A clock reading is an argument: milliseconds in the worker, and whole ticks
-- elsewhere, or seconds for events. A progress is a whole number of millionths. An exception that
-- a method lets through is a value of its result. Python's integers are unbounded, and so are ℕ
-- and ℤ. Loops run over lists and need no fuel, except two: the hook of the serializer, which
-- calls the library with itself, has the number of frames that Python allows; a worker loop that
-- is left alone has a number of iterations, of which as many as there are waiting tasks are
-- enough. A library that is not part of the repository is a parameter: the serializer's size, the
-- digest and the UUIDs of a cache key are the record `Library` of Cache/Keys.
--
-- Not modelled: logging; the periodic loops, whose bodies are modelled as operations; the timeouts
-- of `asyncio`, which end a wait at an unknown time; the connection of the client of server-sent
-- events; FastAPI's decoding of requests and encoding of responses.
pub mod Base
pub mod Worker
pub mod Queue
pub mod Pool
pub mod Executor
pub mod Status
pub mod Futures
pub mod Exceptions
pub mod Registry
pub mod Api
pub mod Events
pub mod SseClient
pub mod TaskCache
pub mod Cache
pub mod Memory
pub mod Redis
pub mod Serialization
pub mod KeyUtils
