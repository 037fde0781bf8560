-- ===== src/Auth.antt =====
-- app/services/auth.py, with app/db/repositories/user.py and user_session.py.
pub mod Password
pub mod Email
pub mod Accounts
pub mod Tokens
mod Tests
