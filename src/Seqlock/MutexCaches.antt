-- ===== src/Seqlock/MutexCaches.antt =====
-- SharedMutexRouteCache and MutexRouteCache: each call runs under its std mutex, as one step.
use hotpathcplusplus.Seqlock.RouteCache.{RouteEntry}

pub record SharedMutexRouteCache : Type 0 where
  pub entry : RouteEntry

pub record MutexRouteCache : Type 0 where
  pub entry : RouteEntry

unfoldable pub write_shared : SharedMutexRouteCache → RouteEntry → SharedMutexRouteCache
write_shared c next = record { entry = next }

unfoldable pub read_shared : SharedMutexRouteCache → RouteEntry
read_shared c = c.entry

unfoldable pub write_exclusive : MutexRouteCache → RouteEntry → MutexRouteCache
write_exclusive c next = record { entry = next }

unfoldable pub read_exclusive : MutexRouteCache → RouteEntry
read_exclusive c = c.entry
