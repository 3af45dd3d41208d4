-- ===== src/Resilience.antt =====
-- app/resilience: the circuit breaker and the cache behind the provider adapters.
pub mod CircuitBreaker
pub mod Cache
