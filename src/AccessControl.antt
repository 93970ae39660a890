-- ===== src/AccessControl.antt =====
-- pkg/accesscontrol: what a user may do, gathered from the roles bound to the user and its groups.
pub mod AccessSet
pub mod Roles
pub mod Store
pub mod Verbs
mod Tests
