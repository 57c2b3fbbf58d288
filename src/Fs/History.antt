-- ===== src/Fs/History.antt =====
-- The counters of the file system over any history of creations and removals.

use ctrlxt_kernel.Base.{
  subst, ℕ, ◌%◌, ◌^◌, ◌≡◌, refl, ◌∙◌, inl, inr, List, ℤ, is_neg, arith, Bool-cases,
}
use ctrlxt_kernel.Kernel.Errno.{success}
use ctrlxt_kernel.Kernel.Pointer.{NegErr, Answer, made, failed}
use ctrlxt_kernel.Kernel.Run.{
  ok, pure, state_of, Cmd, ◌>>◌, and_then, Returns, returns, Returns-then,
}
use ctrlxt_kernel.Kernel.History.{run_all, run_all-always}
use ctrlxt_kernel.Vfs.{Vfs, IsLawful}
use ctrlxt_kernel.Fs.{
  Fs, mount_fs, mounted, init_rest, init, create_quantum_file, remove_quantum_file,
}
use ctrlxt_kernel.Fs.Files.{Failed, Created, Removed, Mounted, create-outcome, remove-outcome}

module _ (v : Vfs) where
  open v use {Name}

  pub data FileOp : Type 0 where
    creates : Name → (size : ℕ) → FileOp
    removes : Name → FileOp

  -- A call whose code the history does not read.
  unfoldable pub file_step : FileOp → Cmd (Fs v) (Unit {0})
  file_step (creates name size) m = (create_quantum_file v name size >> pure tt) m
  file_step (removes name) m = (remove_quantum_file v name >> pure tt) m

module _ (v : Vfs) (law : IsLawful v) where
  open law use {tally}

  -- The file system is mounted, and both counters are the number of files modulo 2 ^ 32.
  pub record Agrees (m : Fs v) : Type 0 where
    pub mounted : Mounted v law m
    pub inodes : m.inode_count ≡ (tally m.vfs).files % 2 ^ 32
    pub dentries : m.dentry_count ≡ (tally m.vfs).files % 2 ^ 32

  Failed-Agrees : (m n : Fs v) (r : ℤ) → Agrees m → Failed v law m r n → Agrees n
  Failed-Agrees m n r a f = record {
    mounted = record {
      sb = (a.mounted.sb.0, f.untouched.sb ∙ a.mounted.sb.1);
      root = (a.mounted.root.0, f.untouched.root ∙ a.mounted.root.1);
    };
    inodes = ground (arith, a.inodes, f.untouched.inodes, f.balanced);
    dentries = ground (arith, a.dentries, f.untouched.dentries, f.balanced);
  }

  Created-Agrees : (m n : Fs v) (r : ℤ) → Agrees m → Created v law m r n → Agrees n
  Created-Agrees m n r a f = record {
    mounted = record {
      sb = (a.mounted.sb.0, f.sb ∙ a.mounted.sb.1);
      root = (a.mounted.root.0, f.root ∙ a.mounted.root.1);
    };
    inodes = omega (arith, a.inodes, f.inodes, f.linked);
    dentries = omega (arith, a.dentries, f.dentries, f.linked);
  }

  Removed-Agrees : (m n : Fs v) (r : ℤ) → Agrees m → Removed v law m r n → Agrees n
  Removed-Agrees m n r a f = record {
    mounted = record {
      sb = (a.mounted.sb.0, f.sb ∙ a.mounted.sb.1);
      root = (a.mounted.root.0, f.root ∙ a.mounted.root.1);
    };
    inodes = omega (arith, a.inodes, f.inodes, f.files);
    dentries = omega (arith, a.dentries, f.dentries, f.files);
  }

  file_step-Agrees : (o : FileOp v) (m : Fs v) → Agrees m → Returns (λ _. Agrees) (file_step v o m)
  unfolding file_step
  file_step-Agrees (creates name size) m a =
      Returns-then (create-outcome v law name size m a.mounted) λ r n o.
        returns (elim o [ inl f ↦ Failed-Agrees m n r a f | inr f ↦ Created-Agrees m n r a f ])
  file_step-Agrees (removes name) m a =
      Returns-then (remove-outcome v law name m a.mounted) λ r n o.
        returns (elim o [ inl f ↦ Failed-Agrees m n r a f | inr f ↦ Removed-Agrees m n r a f ])

  -- The counters are 0, and stay so through mount_fs.
  abbrev ZeroCounts : Fs v → Type 0
  ZeroCounts m = (m.inode_count ≡ 0) × (m.dentry_count ≡ 0)

  mounted-Mounted :
      (a : Answer v.Mount) (k n : Fs v)
      → NegErr a
      → ZeroCounts k
      → and_then (mounted v a k) (init_rest v) ≡ ok success n
      → Mounted v law n × ZeroCounts n
  mounted-Mounted (failed e) k n neg z h = absurd (ground (arith, neg, h))
  mounted-Mounted (made mnt) k n neg z h =
      subst (λ x. Mounted v law x × ZeroCounts x) (state_of h)
        (record { sb = (v.mnt_sb mnt, refl); root = (v.mnt_root mnt, refl) }, z)

  -- What ctrlxt_fs_init leaves when it returns 0.
  init-Mounted : (m n : Fs v) → init v m ≡ ok success n → Mounted v law n × ZeroCounts n
  unfolding init mount_fs
  init-Mounted m n h =
      let r = v.register_filesystem m.vfs in
      let p = v.kern_path r.1 in
      let a = v.vfs_kern_mount p.1 in
      let k = record m { inode_count = 0; dentry_count = 0; vfs = a.1 } in
      elim (Bool-cases (is_neg r.0)) [
        | inl e ↦ absurd (ground (arith, e, h))
        | inr e ↦ elim (Bool-cases (is_neg p.0)) [
          | inl f ↦ absurd (ground (arith, e, f, h))
          | inr f ↦ mounted-Mounted a.0 k n (law.mount-NegErr p.1) (refl, refl) (rw (e, f) at h)
        ]
      ]

  -- Over calls of the virtual file system that keep their laws: after an initialisation that
  -- returned 0, of a file system that is mounted empty, any history of creations and removals,
  -- failed ones among them, ends without a fault, with the file system mounted and both counters at
  -- the number of files, modulo 2 ^ 32.
  pub init-run_all-Agrees :
      (ops : List (FileOp v)) (m n : Fs v)
      → init v m ≡ ok success n
      → (tally n.vfs).files ≡ 0
      → Returns (λ _. Agrees) (run_all (file_step v) ops n)
  init-run_all-Agrees ops m n h e =
      let (w, z) = init-Mounted m n h in
      let (i, d) = z in
      run_all-always (file_step v) Agrees file_step-Agrees ops n
        (record { mounted = w; inodes = omega arith; dentries = omega arith })
