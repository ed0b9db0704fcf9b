-- ===== src/Mm/Error.antt =====
-- kernel/src/error.rs: the errors of the kernel. `Other` holds an error of a trait object, which no code
-- makes; the errors of other components become their error numbers.
use efiks_os.Vfs.File.{Errno, einval, eoverflow, enomem, enoent, efault, enosys, eexist}

pub data Error : Type 0 where
  unaligned overflow oom not_found invalid_args unmapped no_sys already_exists : Error
  errno : Errno → Error

-- `From<Error> for Errno`
unfoldable pub errno_of : Error → Errno
errno_of unaligned = einval
errno_of overflow = eoverflow
errno_of oom = enomem
errno_of not_found = enoent
errno_of invalid_args = einval
errno_of unmapped = efault
errno_of no_sys = enosys
errno_of already_exists = eexist
errno_of (errno e) = e
