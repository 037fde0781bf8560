-- ===== src/Credentials.antt =====
-- Stored credentials: app/services/state.py over the repositories of datastore.py and settings.py.
pub mod Fernet
pub mod Settings
pub mod Datastores
pub mod Sqs
pub mod Tagging
mod Tests
