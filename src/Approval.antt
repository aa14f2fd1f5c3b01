-- ===== src/Approval.antt =====
-- backend/app/services/pending_approval_service.py: the cards that ask a human, and what an answer
-- sets off. A call that the code wraps in `try … except` and logs leaves the state that it reached.
pub mod Format
pub mod Cards
pub mod Answer
pub mod Frame
pub mod Serial
pub mod Pause
pub mod Decide
pub mod Auto
pub mod Idle
