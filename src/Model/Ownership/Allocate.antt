-- ===== src/Model/Ownership/Allocate.antt =====
-- The rule priorities that internal/model/ownership.go gives out.
