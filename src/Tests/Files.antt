-- ===== src/Tests/Files.antt =====
-- Runs of the file system, kernel/fs/ctrlxt_fs.c, over a small file system of the kernel's: its
-- state is the tally itself, each call succeeds, and a mount is empty.
use ctrlxt_kernel.Base.{
  ℕ, zero, suc, ◌+◌, ◌-◌, ◌≡◌, refl, true, false, ◌⊎◌, none, some, List, [], ◌∷◌, ℤ, negsuc, is_neg,
}
use ctrlxt_kernel.Kernel.Errno.{success}
use ctrlxt_kernel.Kernel.Pointer.{made}
use ctrlxt_kernel.Kernel.Run.{ok, Returns}
use ctrlxt_kernel.Kernel.History.{run_all}
use ctrlxt_kernel.Vfs.{Vfs, Tally, IsLawful}
use ctrlxt_kernel.Fs.{Fs, init, mount_fs, create_quantum_file, remove_quantum_file}
use ctrlxt_kernel.Fs.Files.{Mounted, Failed, Created, Removed, create-outcome, remove-outcome}
use ctrlxt_kernel.Fs.History.{FileOp, creates, removes, file_step, Agrees, init-run_all-Agrees}

-- A file is unlinked where there is one.
abbrev unlink_of : ℕ → Tally → ℤ × Tally
unlink_of zero s = (negsuc 1, s)
unlink_of (suc n) s = (success, record s { files = n })

abbrev counting : Vfs
counting = record {
  State = Tally;
  Name = ℕ;
  Inode = ℕ;
  Dentry = ℕ;
  Super = ℕ;
  Mount = ℕ;
  register_filesystem = λ s. (success, record s { filesystems = s.filesystems + 1 });
  unregister_filesystem = λ s. record s { filesystems = s.filesystems - 1 };
  kern_path = λ s. (success, record s { paths = s.paths + 1 });
  vfs_kern_mount = λ s. (made 1, record s { files = 0; mounts = s.mounts + 1 });
  mnt_root = λ m. m;
  mnt_sb = λ m. m;
  d_inode = λ d s. some d;
  kill_anon_super = λ b s. record s { files = 0 };
  new_inode = λ b s. (some 5, record s { inodes = s.inodes + 1 });
  fill_inode = λ i size s. s;
  iput = λ i s. record s { inodes = s.inodes - 1 };
  d_alloc_name = λ d n s. (some n, record s { dentries = s.dentries + 1 });
  d_add = λ d i s. record s { files = s.files + 1; inodes = s.inodes - 1 };
  lookup_one_len = λ n d s. (made n, record s { dentries = s.dentries + 1 });
  vfs_unlink = λ i d s. unlink_of s.files s;
  dput = λ d s. record s { dentries = s.dentries - 1 };
}

unlink_of-failed : (n : ℕ) (s : Tally) → is_neg (unlink_of n s).0 ≡ true → (unlink_of n s).1 ≡ s
unlink_of-failed zero s h = refl
unlink_of-failed (suc n) s h = cc

unlink_of-tally :
    (n : ℕ) (s : Tally)
    → is_neg (unlink_of n s).0 ≡ false
    → (unlink_of n s).1 ≡ record s { files = (unlink_of n s).1.files }
unlink_of-tally zero s h = cc
unlink_of-tally (suc n) s h = refl

unlink_of-files :
    (n : ℕ) (s : Tally) → is_neg (unlink_of n s).0 ≡ false → n ≡ suc (unlink_of n s).1.files
unlink_of-files zero s h = cc
unlink_of-files (suc n) s h = refl

abbrev counting-IsLawful : IsLawful counting
counting-IsLawful = record {
  tally = λ s. s;
  tally-register = λ s. refl;
  tally-unregister = λ s. refl;
  tally-kern_path = λ s. refl;
  tally-mount = λ s. refl;
  mount-NegErr = λ s. tt;
  tally-kill = λ b s. refl;
  tally-new_inode = λ b s. refl;
  tally-fill_inode = λ i size s. refl;
  tally-iput = λ i s. refl;
  tally-d_alloc_name = λ d n s. refl;
  tally-d_add = λ d i s. refl;
  tally-lookup = λ n d s. refl;
  lookup-NegErr = λ n d s. tt;
  tally-unlink_failed = λ i d s h. unlink_of-failed s.files s h;
  tally-unlink = λ i d s h. unlink_of-tally s.files s h;
  files-unlink = λ i d s h. unlink_of-files s.files s h;
  tally-dput = λ d s. refl;
}

abbrev no_tally : Tally
no_tally = record { files = 0; inodes = 0; dentries = 0; paths = 0; mounts = 0; filesystems = 0 }

abbrev static_fs : Fs counting
static_fs = record {
  sb = none;
  root = none;
  root_inode = none;
  inode_count = 0;
  dentry_count = 0;
  vfs = no_tally;
}

abbrev mounted_fs : Fs counting
mounted_fs = record {
  sb = some 1;
  root = some 1;
  root_inode = some 1;
  inode_count = 0;
  dentry_count = 0;
  vfs = record no_tally { paths = 1; mounts = 1; filesystems = 1 };
}

init_run : init counting static_fs ≡ ok success mounted_fs
unfolding init mount_fs
init_run = refl

mounted_fs-Mounted : Mounted counting counting-IsLawful mounted_fs
mounted_fs-Mounted = record { sb = (1, refl); root = (1, refl) }

create-outcome_example :
    Returns
      (λ r n.
        Failed counting counting-IsLawful mounted_fs r n
        ⊎ Created counting counting-IsLawful mounted_fs r n)
      (create_quantum_file counting 7 64 mounted_fs)
create-outcome_example =
    create-outcome counting counting-IsLawful 7 64 mounted_fs mounted_fs-Mounted

remove-outcome_example :
    Returns
      (λ r n.
        Failed counting counting-IsLawful mounted_fs r n
        ⊎ Removed counting counting-IsLawful mounted_fs r n)
      (remove_quantum_file counting 7 mounted_fs)
remove-outcome_example = remove-outcome counting counting-IsLawful 7 mounted_fs mounted_fs-Mounted

abbrev three_ops : List (FileOp counting)
three_ops = creates 7 64 ∷ creates 8 0 ∷ removes 7 ∷ []

init-run_all-Agrees_example :
    Returns
      (λ _. Agrees counting counting-IsLawful)
      (run_all (file_step counting) three_ops mounted_fs)
init-run_all-Agrees_example =
    init-run_all-Agrees counting counting-IsLawful three_ops static_fs mounted_fs init_run refl
