-- ===== src/Examples.antt =====
-- The theorems at concrete inputs, by the part of the program that they are about.
mod Windows
mod Stores
mod Alerts
mod Nodes
mod Users
mod Expressions
mod Unions
mod Tracking
mod Joins
mod Lexing
