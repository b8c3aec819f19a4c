-- ===== src/TaskCache/Settings.antt =====
-- src/async_task_worker/adapters/cache_adapter.py: the calls that the adapter passes to its cache, and
-- the settings that it writes through.
use async_task_worker.Base.{ℕ, Bool, Option}
use async_task_worker.Memory.{CacheAdapter}
use async_task_worker.Cache
use async_task_worker.Cache.{Library, AsyncCache}

module _ {X V S : Type 0} (lib : Library X V) (adapter : CacheAdapter V S) where
  unfoldable clear : AsyncCache S → AsyncCache S
  clear c = Cache.clear lib adapter c

  unfoldable start_cleanup_task : AsyncCache S → AsyncCache S
  start_cleanup_task c = Cache.start_cleanup_task lib adapter c

  unfoldable stop_cleanup_task : AsyncCache S → AsyncCache S
  stop_cleanup_task c = Cache.stop_cleanup_task lib adapter c

module _ {S : Type 0} where
  unfoldable set_enabled : Bool → AsyncCache S → AsyncCache S
  set_enabled value c = record c { enabled = value }

  unfoldable set_default_ttl : Option ℕ → AsyncCache S → AsyncCache S
  set_default_ttl value c = record c { default_ttl = value }

  unfoldable set_cleanup_interval : ℕ → AsyncCache S → AsyncCache S
  set_cleanup_interval value c = record c { cleanup_interval = value }
