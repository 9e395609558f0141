-- ===== src/Contact.antt =====
-- The contact verification of app/services/verification_codes.py and app/routers/verifications.py, and
-- the numbers of app/services/phone.py.
pub mod Codes
pub mod Active
pub mod Steps
pub mod Guesses
pub mod Waiting
pub mod Phone
