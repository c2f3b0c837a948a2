-- ===== src/Common/Errno.antt =====
-- What the kernel's functions return: 0, or a negative error number.
pub data Code : Type 0 where
  success : Code
  enomem : Code
  einval : Code
  ebusy : Code
