-- ===== src/Units.antt =====
-- The service units of projects and users: the setters of api/statistics/utils.py, those of
-- core/allocation/utils_/accounting_utils/__init__.py and the purchases of
-- core/project/utils_/addition_utils.py.
pub mod Rows
pub mod Setters
pub mod Additions
pub mod Service
pub mod Everyone
pub mod Attributes
pub mod Allocate
pub mod Creation
pub mod Found
pub mod Account
mod Examples
