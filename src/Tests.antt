-- ===== src/Tests.antt =====
-- The theorems at concrete inputs, and runs of the definitions.
mod Revision
mod Transport
mod Http
mod Events
mod Upload
mod Client
mod Cache
mod Flight
mod Photos
mod Content
mod Batch
mod Entities
mod Tree
