-- ===== src/Providers.antt =====
-- app/providers: the resilient HTTP client.
pub mod HttpClient
pub mod Payloads
pub mod Currency
pub mod Weather
pub mod Sampling
pub mod SampleFlights
pub mod SampleHotels
