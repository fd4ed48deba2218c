-- ===== src/Documents.antt =====
-- packages/documents: ingestion of documents and their processing in the background.
pub mod Errors
pub mod Job
pub mod Text
pub mod Session
pub mod Queue
pub mod Process
pub mod Commands
pub mod Worker
mod Examples
mod Trials
