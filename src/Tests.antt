-- ===== src/Tests.antt =====
-- Theorems applied to concrete inputs, one module for each part of the code.
mod Samples
mod Packages
mod Search
mod Alerts
mod Limits
mod Http
mod Accounts
mod Routes
mod Requests
mod Redis
mod Offers
mod Payloads
