-- ===== src/AccessControl/Tests.antt =====
-- Runs of the access control model at small inputs, and the theorems at inputs that meet their
-- hypotheses.
mod Grants
mod Cache
