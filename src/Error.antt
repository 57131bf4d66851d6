-- ===== src/Error.antt =====
-- common/include/common/error.h

-- `kerror_t`
pub data Kerror : Type 0 where
  ok nodev nomem inval tout unreachable noimpl addrinuse pipe : Kerror
