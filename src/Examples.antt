-- ===== src/Examples.antt =====
-- Concrete runs of the models.
mod Data
mod Decisions
mod Workers
mod Traces
mod Graph
mod Guards
mod Desks
mod Chats
mod Requests
mod Settings
mod Loader
mod Contexts
mod Listings
mod Evaluations
mod Portal
mod Searches
mod Overviews
mod Journeys
