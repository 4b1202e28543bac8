-- ===== src/Tests.antt =====
-- Tests on concrete data, and an instance of each property at a concrete input, with the raw data
-- functions by big-endian numbers.
mod Options
mod Searches
mod Downloads
mod Data
mod StatusFiles
mod ListFiles
mod Configuration
mod Fields
mod FindPackets
mod Messages
mod Clients
mod Objects
mod Operations
mod Exchanges
