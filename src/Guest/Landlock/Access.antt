-- ===== src/Guest/Landlock/Access.antt =====
-- The access rights of guest/src/landlock.rs, and the combinations that its rules grant.
use cargo_unikernel.Common.{ℕ, ◌^◌, List, [], ◌∷◌, bit_or}

abbrev pub min_abi : ℕ
min_abi = 5

abbrev pub fs_execute : ℕ
fs_execute = 2 ^ 0

abbrev pub fs_write_file : ℕ
fs_write_file = 2 ^ 1

abbrev pub fs_read_file : ℕ
fs_read_file = 2 ^ 2

abbrev pub fs_read_dir : ℕ
fs_read_dir = 2 ^ 3

abbrev pub fs_remove_dir : ℕ
fs_remove_dir = 2 ^ 4

abbrev pub fs_remove_file : ℕ
fs_remove_file = 2 ^ 5

abbrev pub fs_make_char : ℕ
fs_make_char = 2 ^ 6

abbrev pub fs_make_dir : ℕ
fs_make_dir = 2 ^ 7

abbrev pub fs_make_reg : ℕ
fs_make_reg = 2 ^ 8

abbrev pub fs_make_sock : ℕ
fs_make_sock = 2 ^ 9

abbrev pub fs_make_fifo : ℕ
fs_make_fifo = 2 ^ 10

abbrev pub fs_make_block : ℕ
fs_make_block = 2 ^ 11

abbrev pub fs_make_sym : ℕ
fs_make_sym = 2 ^ 12

abbrev pub fs_refer : ℕ
fs_refer = 2 ^ 13

abbrev pub fs_truncate : ℕ
fs_truncate = 2 ^ 14

abbrev pub fs_ioctl_dev : ℕ
fs_ioctl_dev = 2 ^ 15

abbrev pub scope_abstract_unix_socket : ℕ
scope_abstract_unix_socket = 2 ^ 0

abbrev pub scope_signal : ℕ
scope_signal = 2 ^ 1

-- A chain of `|`.
abbrev pub all_of : List ℕ → ℕ
all_of [] = 0
all_of (right ∷ rights) = bit_or right (all_of rights)

abbrev pub read : ℕ
read = bit_or fs_read_file fs_read_dir

abbrev pub read_exec : ℕ
read_exec = bit_or read fs_execute

abbrev pub read_write : ℕ
read_write = all_of (
    read ∷ fs_write_file ∷ fs_truncate ∷ fs_remove_dir ∷ fs_remove_file ∷ fs_make_dir ∷ fs_make_reg
    ∷ fs_make_sock ∷ fs_make_fifo ∷ fs_make_sym ∷ fs_refer ∷ [])

abbrev pub dev_read_write : ℕ
dev_read_write = bit_or fs_read_file fs_write_file

abbrev pub dev_read : ℕ
dev_read = fs_read_file

abbrev pub dev_pty : ℕ
dev_pty = all_of (fs_read_file ∷ fs_write_file ∷ fs_ioctl_dev ∷ [])

abbrev pub dev_attestation : ℕ
dev_attestation = all_of (fs_read_file ∷ fs_write_file ∷ fs_ioctl_dev ∷ [])

-- Rights that a rule on a file may have.
abbrev pub file_rights : ℕ
file_rights = all_of (fs_execute ∷ fs_read_file ∷ fs_write_file ∷ fs_truncate ∷ fs_ioctl_dev ∷ [])
