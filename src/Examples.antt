-- ===== src/Examples.antt =====
-- Concrete states and services, and the theorems at them.
mod World
mod Passes
mod Providers
mod Clients
mod Calm
mod Converging
mod Listing
mod Copies
mod Reports
mod Secrets
mod Groups
mod Orgs
mod Lifecycles
mod Managers
mod Policies
mod Starts
mod Steady
mod Streams
mod Urls
mod Values
mod Webhooks
