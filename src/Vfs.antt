-- ===== src/Vfs.antt =====
-- The calls of the kernel's virtual file system that kernel/fs/ctrlxt_fs.c makes, over a state of
-- their own, and what the source relies on: how each call changes the number of linked files, of
-- references that the caller holds, and of registered file systems.
use ctrlxt_kernel.Base.{
  ℕ, ◌+◌, ◌-◌, ◌≡◌, true, false, Option, none, some, ℤ, is_neg, suc, if◌then◌else◌,
}
use ctrlxt_kernel.Kernel.Pointer.{NegErr, Answer, made, failed}

pub record Vfs : Type 1 where
  pub State : Type 0
  pub Name : Type 0
  pub Inode : Type 0
  pub Dentry : Type 0
  pub Super : Type 0
  pub Mount : Type 0
  pub register_filesystem : State → ℤ × State
  pub unregister_filesystem : State → State
  -- kern_path("/ctrlxt", LOOKUP_FOLLOW, &path)
  pub kern_path : State → ℤ × State
  pub vfs_kern_mount : State → Answer Mount × State
  pub mnt_root : Mount → Dentry
  pub mnt_sb : Mount → Super
  pub d_inode : Dentry → State → Option Inode
  pub kill_anon_super : Super → State → State
  pub new_inode : Super → State → Option Inode × State
  -- The writes of i_mode, i_op, i_fop and, with its value, i_size.
  pub fill_inode : Inode → (size : ℕ) → State → State
  pub iput : Inode → State → State
  pub d_alloc_name : Dentry → Name → State → Option Dentry × State
  pub d_add : Dentry → Inode → State → State
  pub lookup_one_len : Name → Dentry → State → Answer Dentry × State
  pub vfs_unlink : Option Inode → Dentry → State → ℤ × State
  pub dput : Dentry → State → State

-- The linked files; the references to inodes, dentries, paths and mounts that the caller has been
-- given and has not given back; the registered file systems.
pub record Tally : Type 0 where
  pub files : ℕ
  pub inodes : ℕ
  pub dentries : ℕ
  pub paths : ℕ
  pub mounts : ℕ
  pub filesystems : ℕ

abbrev pub inode_got : {A : Type 0} → Option A → Tally → Tally
inode_got none t = t
inode_got (some i) t = record t { inodes = t.inodes + 1 }

abbrev pub dentry_got : {A : Type 0} → Option A → Tally → Tally
dentry_got none t = t
dentry_got (some d) t = record t { dentries = t.dentries + 1 }

abbrev pub dentry_found : {A : Type 0} → Answer A → Tally → Tally
dentry_found (made d) t = record t { dentries = t.dentries + 1 }
dentry_found (failed e) t = t

abbrev pub mount_got : {A : Type 0} → Answer A → Tally → Tally
mount_got (made m) t = record t { mounts = t.mounts + 1 }
mount_got (failed e) t = t

pub record IsLawful (v : Vfs) : Type 1 where
  pub tally : v.State → Tally
  pub tally-register :
      (s : v.State)
      → tally (v.register_filesystem s).1 ≡ (
          if is_neg (v.register_filesystem s).0
          then tally s
          else record (tally s) { filesystems = (tally s).filesystems + 1 })
  pub tally-unregister :
      (s : v.State)
      → tally (v.unregister_filesystem s)
        ≡ record (tally s) { filesystems = (tally s).filesystems - 1 }
  pub tally-kern_path :
      (s : v.State)
      → tally (v.kern_path s).1 ≡ (
          if is_neg (v.kern_path s).0
          then tally s
          else record (tally s) { paths = (tally s).paths + 1 })
  -- Mounting hands out a mount, and changes which files there are.
  pub tally-mount :
      (s : v.State)
      → tally (v.vfs_kern_mount s).1 ≡ record (mount_got (v.vfs_kern_mount s).0 (tally s)) {
        files = (tally (v.vfs_kern_mount s).1).files;
      }
  pub mount-NegErr : (s : v.State) → NegErr (v.vfs_kern_mount s).0
  -- To kill a super block changes which files there are, and nothing else.
  pub tally-kill :
      (b : v.Super) (s : v.State)
      → tally (v.kill_anon_super b s)
        ≡ record (tally s) { files = (tally (v.kill_anon_super b s)).files }
  pub tally-new_inode :
      (b : v.Super) (s : v.State)
      → tally (v.new_inode b s).1 ≡ inode_got (v.new_inode b s).0 (tally s)
  pub tally-fill_inode :
      (i : v.Inode) (size : ℕ) (s : v.State) → tally (v.fill_inode i size s) ≡ tally s
  pub tally-iput :
      (i : v.Inode) (s : v.State)
      → tally (v.iput i s) ≡ record (tally s) { inodes = (tally s).inodes - 1 }
  pub tally-d_alloc_name :
      (d : v.Dentry) (n : v.Name) (s : v.State)
      → tally (v.d_alloc_name d n s).1 ≡ dentry_got (v.d_alloc_name d n s).0 (tally s)
  -- The name is linked, and the reference to the inode passes to the dentry.
  pub tally-d_add :
      (d : v.Dentry) (i : v.Inode) (s : v.State)
      → tally (v.d_add d i s)
        ≡ record (tally s) { files = (tally s).files + 1; inodes = (tally s).inodes - 1 }
  pub tally-lookup :
      (n : v.Name) (d : v.Dentry) (s : v.State)
      → tally (v.lookup_one_len n d s).1 ≡ dentry_found (v.lookup_one_len n d s).0 (tally s)
  pub lookup-NegErr : (n : v.Name) (d : v.Dentry) (s : v.State) → NegErr (v.lookup_one_len n d s).0
  -- A failure changes nothing.
  pub tally-unlink_failed :
      (i : Option v.Inode) (d : v.Dentry) (s : v.State)
      → is_neg (v.vfs_unlink i d s).0 ≡ true
      → tally (v.vfs_unlink i d s).1 ≡ tally s
  -- A success changes no reference of the caller's, and unlinks one name.
  pub tally-unlink :
      (i : Option v.Inode) (d : v.Dentry) (s : v.State)
      → is_neg (v.vfs_unlink i d s).0 ≡ false
      → tally (v.vfs_unlink i d s).1
        ≡ record (tally s) { files = (tally (v.vfs_unlink i d s).1).files }
  pub files-unlink :
      (i : Option v.Inode) (d : v.Dentry) (s : v.State)
      → is_neg (v.vfs_unlink i d s).0 ≡ false
      → (tally s).files ≡ suc (tally (v.vfs_unlink i d s).1).files
  pub tally-dput :
      (d : v.Dentry) (s : v.State)
      → tally (v.dput d s) ≡ record (tally s) { dentries = (tally s).dentries - 1 }
