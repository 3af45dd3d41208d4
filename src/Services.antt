-- ===== src/Services.antt =====
-- app/services: the use cases.
pub mod Pagination
pub mod Merge
pub mod Aggregation
pub mod HotelAggregation
pub mod TokenBlocklist
pub mod AuthService
pub mod PriceMonitor
