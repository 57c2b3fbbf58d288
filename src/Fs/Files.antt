-- ===== src/Fs/Files.antt =====
-- Creating and removing files: what each outcome leaves.
use ctrlxt_kernel.Base.{
  ℕ, suc, ◌+◌, ◌≡◌, refl, sym, ap, ◌∙◌, ◌⊎◌, inl, inr, true, false, Option, none, some, ℤ, is_neg,
  arith, Bool-cases,
}
use ctrlxt_kernel.Kernel.Errno.{success}
use ctrlxt_kernel.Kernel.Pointer.{NegErr, Answer, made, failed}
use ctrlxt_kernel.Kernel.Atomic.{atomic_inc, atomic_dec}
use ctrlxt_kernel.Kernel.Run.{Returns, returns}
use ctrlxt_kernel.Vfs.{Vfs, Tally, IsLawful, inode_got, dentry_got, dentry_found}
use ctrlxt_kernel.Fs.{
  Fs, link, make_entry, create_quantum_file, unlinked, unlink, remove_quantum_file,
}

module _ (v : Vfs) (law : IsLawful v) where
  open v use {Name, Inode, Dentry, Super}
  open law use {tally}

  -- Neither the mount nor the counters have changed.
  pub record Untouched (m n : Fs v) : Type 0 where
    pub sb : n.sb ≡ m.sb
    pub root : n.root ≡ m.root
    pub inodes : n.inode_count ≡ m.inode_count
    pub dentries : n.dentry_count ≡ m.dentry_count

  -- A failed call leaves every reference and every file as it was.
  pub record Failed (m : Fs v) (r : ℤ) (n : Fs v) : Type 0 where
    pub negative : is_neg r ≡ true
    pub untouched : Untouched m n
    pub balanced : tally n.vfs ≡ tally m.vfs

  pub record Created (m : Fs v) (r : ℤ) (n : Fs v) : Type 0 where
    pub zero_code : r ≡ success
    pub sb : n.sb ≡ m.sb
    pub root : n.root ≡ m.root
    pub linked : (tally n.vfs).files ≡ (tally m.vfs).files + 1
    pub tallied : tally n.vfs ≡ record (tally m.vfs) {
      files = (tally m.vfs).files + 1;
      dentries = (tally m.vfs).dentries + 1;
    }
    pub inodes : n.inode_count ≡ atomic_inc m.inode_count
    pub dentries : n.dentry_count ≡ atomic_inc m.dentry_count

  pub record Removed (m : Fs v) (r : ℤ) (n : Fs v) : Type 0 where
    pub zero_code : r ≡ success
    pub sb : n.sb ≡ m.sb
    pub root : n.root ≡ m.root
    pub inodes : n.inode_count ≡ atomic_dec m.inode_count
    pub dentries : n.dentry_count ≡ atomic_dec m.dentry_count
    pub files : (tally m.vfs).files ≡ suc (tally n.vfs).files
    pub balanced : tally n.vfs ≡ record (tally m.vfs) { files = (tally n.vfs).files }

  one_inode : Tally → Tally
  one_inode t = record t { inodes = t.inodes + 1 }

  link-outcome :
      (i : Inode) (o : Option Dentry) (m n : Fs v)
      → Untouched m n
      → tally n.vfs ≡ dentry_got o (one_inode (tally m.vfs))
      → Returns (λ r k. Failed m r k ⊎ Created m r k) (link v i o n)
  unfolding one_inode
  link-outcome i none m n u h = returns (
      inl (record {
        negative = refl;
        untouched = record { sb = u.sb; root = u.root; inodes = u.inodes; dentries = u.dentries };
        balanced = ground (arith, law.tally-iput i n.vfs, h);
      }))
  link-outcome i (some d) m n u h = returns (
      inr (record {
        zero_code = refl;
        sb = u.sb;
        root = u.root;
        linked = ground (arith, law.tally-d_add d i n.vfs, h);
        tallied = ground (arith, law.tally-d_add d i n.vfs, h);
        inodes = rw u.inodes refl;
        dentries = rw u.dentries refl;
      }))

  make_entry-outcome :
      (name : Name) (size : ℕ) (root : Dentry) (o : Option Inode) (m n : Fs v)
      → Untouched m n
      → tally n.vfs ≡ inode_got o (tally m.vfs)
      → Returns (λ r k. Failed m r k ⊎ Created m r k) (make_entry v name size (some root) o n)
  unfolding one_inode
  make_entry-outcome name size root none m n u h =
      returns (inl (record { negative = refl; untouched = u; balanced = h }))
  make_entry-outcome name size root (some i) m n u h =
      let s = v.fill_inode i size n.vfs in
      let r = v.d_alloc_name root name s in
      link-outcome i r.0 m (record n { vfs = r.1 })
        (record { sb = u.sb; root = u.root; inodes = u.inodes; dentries = u.dentries })
        (law.tally-d_alloc_name root name s
          ∙ ap (dentry_got r.0) (law.tally-fill_inode i size n.vfs ∙ h))

  -- The file system is mounted.
  pub record Mounted (m : Fs v) : Type 0 where
    pub sb : (b : Super) × (m.sb ≡ some b)
    pub root : (d : Dentry) × (m.root ≡ some d)

  -- Over calls of the virtual file system that keep their laws, create_quantum_file on a mounted
  -- file system ends without a fault. Either it returns a negative code, with every reference given
  -- back and nothing changed, or it returns 0 with one file more, both counters one higher, and no
  -- new reference held but the one that pins the dentry.
  pub create-outcome :
      (name : Name) (size : ℕ) (m : Fs v)
      → Mounted m
      → Returns (λ r n. Failed m r n ⊎ Created m r n) (create_quantum_file v name size m)
  unfolding create_quantum_file
  create-outcome name size m w =
      let (b, e) = w.sb in
      let (d, f) = w.root in
      let r = v.new_inode b m.vfs in
      simp (e, f)
        (make_entry-outcome name size d r.0 m (record m { sb = some b; root = some d; vfs = r.1 })
          (record { sb = sym e; root = sym f; inodes = refl; dentries = refl })
          (law.tally-new_inode b m.vfs))

  unlinked-outcome :
      (d : Dentry) (ret : ℤ) (m n : Fs v)
      → Untouched m n
      → (is_neg ret ≡ true
          → tally n.vfs ≡ record (tally m.vfs) { dentries = (tally m.vfs).dentries + 1 })
      → (is_neg ret ≡ false → (tally m.vfs).files ≡ suc (tally n.vfs).files)
      → (is_neg ret ≡ false
          → tally n.vfs ≡ record (tally m.vfs) {
            files = (tally n.vfs).files;
            dentries = (tally m.vfs).dentries + 1;
          })
      → Returns (λ r k. Failed m r k ⊎ Removed m r k) (unlinked v d ret n)
  unlinked-outcome d ret m n u bad good held = elim (Bool-cases (is_neg ret)) [
    | inl e ↦ rw e (
        returns (
          inl (record {
            negative = e;
            untouched = record {
              sb = u.sb;
              root = u.root;
              inodes = u.inodes;
              dentries = u.dentries;
            };
            balanced = ground (arith, law.tally-dput d n.vfs, bad e);
          })))
    | inr e ↦ rw e (
        returns (
          inr (record {
            zero_code = refl;
            sb = u.sb;
            root = u.root;
            inodes = rw u.inodes refl;
            dentries = rw u.dentries refl;
            files = ground (arith, law.tally-dput d n.vfs, good e);
            balanced = ground (arith, law.tally-dput d n.vfs, held e);
          })))
  ]

  unlink-outcome :
      (root : Dentry) (a : Answer Dentry) (m n : Fs v)
      → Untouched m n
      → NegErr a
      → tally n.vfs ≡ dentry_found a (tally m.vfs)
      → Returns (λ r k. Failed m r k ⊎ Removed m r k) (unlink v root a n)
  unlink-outcome root (failed e) m n u neg h =
      returns (inl (record { negative = neg; untouched = u; balanced = h }))
  unlink-outcome root (made d) m n u neg h =
      let i = v.d_inode root n.vfs in
      let r = v.vfs_unlink i d n.vfs in
      unlinked-outcome d r.0 m (record n { vfs = r.1 })
        (record { sb = u.sb; root = u.root; inodes = u.inodes; dentries = u.dentries })
        (λ e. law.tally-unlink_failed i d n.vfs e ∙ h)
        (λ e. ground (arith, law.files-unlink i d n.vfs e, h))
        (λ e. ground (arith, law.tally-unlink i d n.vfs e, h))

  -- Over calls of the virtual file system that keep their laws, remove_quantum_file on a mounted
  -- file system ends without a fault. Either it returns a negative code, with every reference given
  -- back and nothing changed, or it returns 0 with every reference given back, one file less and
  -- both counters one lower.
  pub remove-outcome :
      (name : Name) (m : Fs v)
      → Mounted m
      → Returns (λ r n. Failed m r n ⊎ Removed m r n) (remove_quantum_file v name m)
  unfolding remove_quantum_file
  remove-outcome name m w =
      let (d, f) = w.root in
      let r = v.lookup_one_len name d m.vfs in
      simp f (
        unlink-outcome d r.0 m (record m { root = some d; vfs = r.1 })
          (record { sb = refl; root = sym f; inodes = refl; dentries = refl })
          (law.lookup-NegErr name d m.vfs) (law.tally-lookup name d m.vfs))
