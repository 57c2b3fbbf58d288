-- ===== src/Fs/Setup.antt =====
-- ctrlxt_fs_init and fs_exit: which of the kernel's resources they hold and give back.
use ctrlxt_kernel.Base.{
  ◌+◌, ◌-◌, ◌≡◌, refl, true, false, Option, none, some, ℤ, is_neg, if◌then◌else◌, arith, Bool-cases,
  ◌⊎◌, inl, inr,
}
use ctrlxt_kernel.Kernel.Errno.{success}
use ctrlxt_kernel.Kernel.Pointer.{NegErr, Answer, made, failed}
use ctrlxt_kernel.Kernel.Run.{ok, ◌>>◌, and_then, Returns, returns, Returns-ok, Returns-mono}
use ctrlxt_kernel.Vfs.{mount_got, Tally, Vfs, IsLawful}
use ctrlxt_kernel.Fs.{Fs, does, mounted, mount_fs, init_rest, init, kill, exit}

module _ (v : Vfs) (law : IsLawful v) where
  open law use {tally}

  -- What the tally `t` keeps of the tally of `m`: one registered file system more, and no reference
  -- to an inode or a dentry.
  record Registered (m : Fs v) (t : Tally) : Type 0 where
    filesystems : t.filesystems ≡ (tally m.vfs).filesystems + 1
    inodes : t.inodes ≡ (tally m.vfs).inodes
    dentries : t.dentries ≡ (tally m.vfs).dentries

  -- The path of the mount point and the mount are held.
  abbrev pub MountHeld : Fs v → Tally → Type 0
  MountHeld m t = (t.paths ≡ (tally m.vfs).paths + 1) × (t.mounts ≡ (tally m.vfs).mounts + 1)

  -- What an initialisation leaves: the file system registered exactly if it returns 0, and then
  -- the path of the mount point and the mount held.
  pub record Started (m : Fs v) (r : ℤ) (n : Fs v) : Type 0 where
    pub codes : (r ≡ success) ⊎ (is_neg r ≡ true)
    pub filesystems :
        (tally n.vfs).filesystems
        ≡ (if is_neg r then (tally m.vfs).filesystems else (tally m.vfs).filesystems + 1)
    pub mount_held : is_neg r ≡ false → MountHeld m (tally n.vfs)
    pub references :
        ((tally n.vfs).inodes ≡ (tally m.vfs).inodes)
        × ((tally n.vfs).dentries ≡ (tally m.vfs).dentries)

  init_rest-Started :
      (ret : ℤ) (m k : Fs v)
      → Registered m (tally k.vfs)
      → (is_neg ret ≡ false → MountHeld m (tally k.vfs))
      → Returns (Started m) (init_rest v ret k)
  init_rest-Started ret m k g p = elim (Bool-cases (is_neg ret)) [
    | inl e ↦ rw e (
        returns (record {
          codes = inr e;
          filesystems = rw e (ground (arith, law.tally-unregister k.vfs, g.filesystems));
          mount_held = λ f. cc;
          references = (
            ground (arith, law.tally-unregister k.vfs, g.inodes),
            ground (arith, law.tally-unregister k.vfs, g.dentries),
          );
        }))
    | inr e ↦ rw e (
        returns (record {
          codes = inl refl;
          filesystems = g.filesystems;
          mount_held = λ _. p e;
          references = (g.inodes, g.dentries);
        }))
  ]

  -- `t` is the tally before vfs_kern_mount.
  mounted-Started :
      (a : Answer v.Mount) (m k : Fs v) (t : Tally)
      → NegErr a
      → Registered m t
      → t.paths ≡ (tally m.vfs).paths + 1
      → t.mounts ≡ (tally m.vfs).mounts
      → tally k.vfs ≡ record (mount_got a t) { files = (tally k.vfs).files }
      → Returns (Started m) (and_then (mounted v a k) (init_rest v))
  mounted-Started (failed e) m k t neg g p q l =
      init_rest-Started e m k
        (record {
          filesystems = ground (arith, l, g.filesystems);
          inodes = ground (arith, l, g.inodes);
          dentries = ground (arith, l, g.dentries);
        })
        (λ h. cc)
  mounted-Started (made mnt) m k t neg g p q l = returns (record {
    codes = inl refl;
    filesystems = ground (arith, l, g.filesystems);
    mount_held = λ _. (ground (arith, l, p), ground (arith, l, q));
    references = (ground (arith, l, g.inodes), ground (arith, l, g.dentries));
  })

  -- Initialisation ends without a fault. It returns 0 or a negative code, the file system is
  -- registered exactly if it returns 0, and no reference to an inode or a dentry is kept; where it
  -- returns 0, the path of the mount point and the mount are held.
  pub init-Started : (m : Fs v) → Returns (Started m) (init v m)
  unfolding init mount_fs
  init-Started m =
      let r = v.register_filesystem m.vfs in
      let p = v.kern_path r.1 in
      let lr = law.tally-register m.vfs in
      let lp = law.tally-kern_path r.1 in
      elim (Bool-cases (is_neg r.0)) [
        | inl e ↦ rw e (
            returns (record {
              codes = inr e;
              filesystems = ground (arith, lr, e);
              mount_held = λ f. cc;
              references = (ground (arith, lr, e), ground (arith, lr, e));
            }))
        | inr e ↦
            let g : Registered m (tally p.1) = record {
              filesystems = ground (arith, lr, lp, e);
              inodes = ground (arith, lr, lp, e);
              dentries = ground (arith, lr, lp, e);
            } in
            elim (Bool-cases (is_neg p.0)) [
              | inl f ↦ rw (e, f) (init_rest-Started p.0 m _ g (λ h. cc))
              | inr f ↦
                  let a = v.vfs_kern_mount p.1 in
                  rw (e, f)
                    (mounted-Started a.0 m
                      (record m { inode_count = 0; dentry_count = 0; vfs = a.1 }) (tally p.1)
                      (law.mount-NegErr p.1) g (ground (arith, lp, lr, e, f))
                      (ground (arith, lp, lr, e, f)) (law.tally-mount p.1))
            ]
      ]

  exit-tally :
      (b : Option v.Super) (n : Fs v)
      → Returns
          (λ _ k.
            ((tally k.vfs).filesystems ≡ (tally n.vfs).filesystems - 1)
            × ((tally k.vfs).paths ≡ (tally n.vfs).paths)
            × ((tally k.vfs).mounts ≡ (tally n.vfs).mounts))
          ((kill v b >> does v v.unregister_filesystem) n)
  exit-tally none n =
      let l = law.tally-unregister n.vfs in
      returns (ground (arith, l), ground (arith, l), ground (arith, l))
  exit-tally (some b) n =
      let s = v.kill_anon_super b n.vfs in
      let l = law.tally-unregister s in
      let k = law.tally-kill b n.vfs in
      returns (ground (arith, l, k), ground (arith, l, k), ground (arith, l, k))

  -- Over calls of the virtual file system that keep their laws, unloading after an initialisation
  -- that returned 0 leaves the file system unregistered as before it, but one reference to the path
  -- of the mount point and one to the mount are never given back.
  pub init-exit_leaks :
      (m n : Fs v)
      → init v m ≡ ok success n
      → Returns
          (λ _ k.
            ((tally k.vfs).filesystems ≡ (tally m.vfs).filesystems) × MountHeld m (tally k.vfs))
          (exit v n)
  unfolding exit
  init-exit_leaks m n h =
      let st = Returns-ok (init-Started m) h in
      let (p, q) = st.mount_held refl in
      Returns-mono (exit-tally n.sb n) λ _ k e.
        (omega (arith, e.0, st.filesystems), (omega (arith, e.1, p), omega (arith, e.2, q)))
