-- ===== src/Requests.antt =====
-- Requests that administrators review: new Savio projects, new Vector projects and renewals of
-- allowances (core/project/models.py, core/project/utils_/new_project_utils.py and
-- core/project/utils_/renewal_utils.py).
pub mod Steps
pub mod Savio
pub mod Vector
pub mod Renewal
pub mod Reasons
mod Examples
