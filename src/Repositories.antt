-- ===== src/Repositories.antt =====
-- app/repositories and the rows of app/db/models.py that they read and write. A table is the list of
-- its rows in the order in which they were added; a UUID is its integer.
pub mod Users
pub mod PriceAlerts
