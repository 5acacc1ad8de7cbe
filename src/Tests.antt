-- ===== src/Tests.antt =====
-- Runs of the model on a small document, and the theorems at work on it.
mod Document
mod Scans
mod Writes
mod Transactions
mod Catalogs
mod Attaches
mod Memory
mod Secrets
mod Loads
mod Handles
mod Blocks
mod Attachments
