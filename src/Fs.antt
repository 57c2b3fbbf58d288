-- ===== src/Fs.antt =====
-- The file system, kernel/fs/ctrlxt_fs.c. `struct ctrlxt_fs` is the record `Fs`, and the calls of
-- the virtual file system act on the state that it carries along. A NULL super block or root that
-- is passed to them is a fault.
pub mod Files
pub mod History
pub mod Setup
use ctrlxt_kernel.Base.{ℕ, Option, none, some, ℤ, is_neg, if◌then◌else◌}
use ctrlxt_kernel.Kernel.Errno.{success, enomem}
use ctrlxt_kernel.Kernel.Pointer.{Answer, made, failed}
use ctrlxt_kernel.Kernel.Atomic.{atomic_inc, atomic_dec}
use ctrlxt_kernel.Kernel.Run.{Run, ok, fault, Cmd, pure, ◌>>=◌, ◌>>◌, modify}
use ctrlxt_kernel.Vfs.{Vfs}

pub record Fs (v : Vfs) : Type 0 where
  pub sb : Option v.Super
  pub root : Option v.Dentry
  pub root_inode : Option v.Inode
  pub inode_count : ℕ
  pub dentry_count : ℕ
  pub vfs : v.State

module _ (v : Vfs) where
  open v use {State, Name, Inode, Dentry, Super}

  -- A call of the virtual file system.
  abbrev pub calls : {A : Type 0} → (State → A × State) → Cmd (Fs v) A
  calls f m = let (a, s) = f m.vfs in ok a (record m { vfs = s })

  abbrev pub does : (State → State) → Cmd (Fs v) (Unit {0})
  does f m = ok tt (record m { vfs = f m.vfs })

  -- The end of mount_fs, behind vfs_kern_mount.
  abbrev pub mounted : Answer v.Mount → Cmd (Fs v) ℤ
  mounted (failed e) m = ok e m
  mounted (made mnt) m = ok success (record m {
    root_inode = v.d_inode (v.mnt_root mnt) m.vfs;
    root = some (v.mnt_root mnt);
    sb = some (v.mnt_sb mnt);
  })

  unfoldable pub mount_fs : Cmd (Fs v) ℤ
  mount_fs m =
      (do
        ret ← calls v.kern_path
        if is_neg ret then pure ret else do a ← calls v.vfs_kern_mount; mounted a)
        m

  -- The end of ctrlxt_fs_init, behind mount_fs.
  abbrev pub init_rest : ℤ → Cmd (Fs v) ℤ
  init_rest ret = if is_neg ret then (do does v.unregister_filesystem; pure ret) else pure success

  unfoldable pub init : Cmd (Fs v) ℤ
  unfolding mount_fs
  init m =
      (do
        modify λ n. record n { inode_count = 0; dentry_count = 0 }
        ret ← calls v.register_filesystem
        if is_neg ret then pure ret else do r ← mount_fs; init_rest r)
        m

  -- create_quantum_file behind d_alloc_name.
  abbrev pub link : Inode → Option Dentry → Cmd (Fs v) ℤ
  link i none = do does (v.iput i); pure enomem
  link i (some d) = do
    does (v.d_add d i)
    modify λ m. record m {
      inode_count = atomic_inc m.inode_count;
      dentry_count = atomic_inc m.dentry_count;
    }
    pure success

  abbrev pub alloc_entry : Name → Inode → Option Dentry → Cmd (Fs v) ℤ
  alloc_entry name i none = λ m. fault
  alloc_entry name i (some root) = do d ← calls (v.d_alloc_name root name); link i d

  -- create_quantum_file behind new_inode.
  abbrev pub make_entry : Name → ℕ → Option Dentry → Option Inode → Cmd (Fs v) ℤ
  make_entry name size root none = pure enomem
  make_entry name size root (some i) = do does (v.fill_inode i size); alloc_entry name i root

  abbrev pub create_in : Name → ℕ → Option Super → Option Dentry → Cmd (Fs v) ℤ
  create_in name size none root = λ m. fault
  create_in name size (some b) root = do i ← calls (v.new_inode b); make_entry name size root i

  unfoldable pub create_quantum_file : Name → ℕ → Cmd (Fs v) ℤ
  create_quantum_file name size m = create_in name size m.sb m.root m

  -- The end of remove_quantum_file, when the file is removed.
  abbrev pub removed : Dentry → Cmd (Fs v) ℤ
  removed d = do
    modify λ m. record m {
      inode_count = atomic_dec m.inode_count;
      dentry_count = atomic_dec m.dentry_count;
    }
    does (v.dput d)
    pure success

  -- remove_quantum_file behind vfs_unlink.
  abbrev pub unlinked : Dentry → ℤ → Cmd (Fs v) ℤ
  unlinked d ret = if is_neg ret then (do does (v.dput d); pure ret) else removed d

  -- remove_quantum_file behind lookup_one_len.
  abbrev pub unlink : Dentry → Answer Dentry → Cmd (Fs v) ℤ
  unlink root (failed e) m = ok e m
  unlink root (made d) m =
      (do ret ← calls (v.vfs_unlink (v.d_inode root m.vfs) d); unlinked d ret) m

  abbrev pub remove_in : Name → Option Dentry → Cmd (Fs v) ℤ
  remove_in name none m = fault
  remove_in name (some root) m = (do a ← calls (v.lookup_one_len name root); unlink root a) m

  unfoldable pub remove_quantum_file : Name → Cmd (Fs v) ℤ
  remove_quantum_file name m = remove_in name m.root m

  abbrev pub kill : Option Super → Cmd (Fs v) (Unit {0})
  kill none = pure tt
  kill (some b) = does (v.kill_anon_super b)

  unfoldable pub exit : Cmd (Fs v) (Unit {0})
  exit m = (do kill m.sb; does v.unregister_filesystem) m
