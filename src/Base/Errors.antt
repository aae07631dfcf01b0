-- ===== src/Base/Errors.antt =====
-- `errno`, the return values `-errno`, and the outcome of one system call.
use Prim.Native.Nat.{ℕ}

-- `other` is any error code that the code passes on without naming it.
pub data Errno : Type 0 where
  eperm enoent eio enomem eexist einval emfile enosys : Errno
  other : ℕ → Errno

-- A non-negative value, or the negation of an error code.
pub data Result {ℓ} (A : Type ℓ) : Type ℓ where
  ok : A → Result A
  err : Errno → Result A
