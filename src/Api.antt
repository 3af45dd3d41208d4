-- ===== src/Api.antt =====
-- app/api: what the routes of the service do.
pub mod Auth
pub mod Deps
pub mod PriceAlerts
pub mod Flights
pub mod Hotels
pub mod Admin
