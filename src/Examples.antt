-- ===== src/Examples.antt =====
-- Concrete tables and requests, on which the functions run and the theorems apply.
mod Tables
mod Flow
mod Amounts
mod Parts
mod Tokens
mod Staff
mod Races
mod Views
mod Calls
