-- ===== src/Tests.antt =====
-- Concrete instances and runs: each theorem at an input that the code meets.
mod Instances
mod Numbers
mod Limits
mod Requests
mod Messages
mod Handling
mod Subscriptions
mod Caching
mod Notices
mod Sessions
mod Managers
mod Chain
mod Pool
mod Stacked
mod Submitting
mod Races
mod Serving
