-- ===== src/Builder.antt =====
-- The builder: backend/app/services/builder_claim_service.py with
-- backend/app/domain/builder/work_claim.py, and
-- backend/app/domain/builder/spec_validation.py.
pub mod Claims
pub mod Spec
