-- ===== src/Access.antt =====
-- Who may do what: app/enums.py (Role), app/deps.py (ACTION_ROLES, the route guards),
-- app/services/ownership.py and password_policy.py, and the errors of app/errors.py.
pub mod Errors
pub mod Roles
pub mod Ownership
pub mod Guards
