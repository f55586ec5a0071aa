-- ===== src/Util.antt =====
-- util/: the caches and the scope guard.
pub mod LruCache
pub mod BlockingLruCache
pub mod ScopeGuard
pub mod RvalueWrapper
pub mod MakeUnique
pub mod Invoke
