-- ===== src/Sandbox/Landlock/Rights.antt =====
-- The rights that rules carry.
use oodar.Base.{ℕ, ◌≡◌, ◌≢◌, ◌⊎◌, refl, leb, Bool, true, false, [], ◌∷◌, inl, inr}
use oodar.Base.Bits.{complement}
use Prim.Native.Nat.{bit_and, bit_or}
use oodar.Sandbox.Landlock.{Kind, directory, regular, device, unstated, rule_access, dir_bits}
use oodar.Sandbox.Access.{
  ll_handled_fs, ll_read_bits, ll_write_bits, or_if, any_of, ll_fs_write_file, ll_fs_ioctl_dev,
  ll_fs_refer, ll_fs_truncate, ll_fs_abi1, removes_and_makes, ll_fs_execute, ll_fs_read_file,
  ll_fs_read_dir,
}

-- The rights of a rule for a path of the read list, and of the write list.
unfoldable pub read_rule : Kind → ℕ → ℕ
read_rule kind abi = rule_access kind abi (bit_and (ll_read_bits abi) (ll_handled_fs abi))

unfoldable pub write_rule : Kind → ℕ → ℕ
write_rule kind abi = rule_access kind abi (bit_and (ll_write_bits abi) (ll_handled_fs abi))

-- Every bit of `b` is in `a`.
abbrev pub Includes : ℕ → ℕ → Type 0
Includes a b = bit_and a b ≡ b

abbrev pub executes_and_reads : ℕ
executes_and_reads = any_of (ll_fs_execute ∷ ll_fs_read_file ∷ ll_fs_read_dir ∷ [])

-- The rights that are handled, as a function of the three tests of the version.
abbrev handled_of : Bool → Bool → Bool → ℕ
handled_of r t i = or_if i ll_fs_ioctl_dev (or_if t ll_fs_truncate (or_if r ll_fs_refer ll_fs_abi1))

abbrev writes_of : Bool → Bool → ℕ
writes_of r t = or_if t ll_fs_truncate (
    or_if r ll_fs_refer (bit_or (any_of (ll_fs_write_file ∷ removes_and_makes)) executes_and_reads))

abbrev in_dir : ℕ → Bool → Bool → Bool → ℕ
in_dir bits r t i = bit_and bits (handled_of r t i)

abbrev in_file : ℕ → Bool → Bool → Bool → ℕ
in_file bits r t i = bit_and (in_dir bits r t i) (complement 64 dir_bits)

abbrev in_device : ℕ → Bool → Bool → Bool → ℕ
in_device bits r t i = or_if i ll_fs_ioctl_dev (bit_or (in_file bits r t i) ll_fs_write_file)

reads_handled :
    (r t i : Bool)
    → Includes (handled_of r t i) (in_dir executes_and_reads r t i)
      × Includes (handled_of r t i) (in_file executes_and_reads r t i)
      × Includes (handled_of r t i) (in_device executes_and_reads r t i)
      × Includes executes_and_reads (in_dir executes_and_reads r t i)
      × Includes executes_and_reads (in_file executes_and_reads r t i)
reads_handled true true true = (refl, refl, refl, refl, refl)
reads_handled true true false = (refl, refl, refl, refl, refl)
reads_handled true false true = (refl, refl, refl, refl, refl)
reads_handled true false false = (refl, refl, refl, refl, refl)
reads_handled false true true = (refl, refl, refl, refl, refl)
reads_handled false true false = (refl, refl, refl, refl, refl)
reads_handled false false true = (refl, refl, refl, refl, refl)
reads_handled false false false = (refl, refl, refl, refl, refl)

writes_handled :
    (r t i : Bool)
    → Includes (handled_of r t i) (in_dir (writes_of r t) r t i)
      × Includes (handled_of r t i) (in_file (writes_of r t) r t i)
      × Includes (handled_of r t i) (in_device (writes_of r t) r t i)
      × (bit_and (in_file (writes_of r t) r t i) dir_bits ≡ 0)
      × (bit_and (in_device (writes_of r t) r t i) dir_bits ≡ 0)
writes_handled true true true = (refl, refl, refl, refl, refl)
writes_handled true true false = (refl, refl, refl, refl, refl)
writes_handled true false true = (refl, refl, refl, refl, refl)
writes_handled true false false = (refl, refl, refl, refl, refl)
writes_handled false true true = (refl, refl, refl, refl, refl)
writes_handled false true false = (refl, refl, refl, refl, refl)
writes_handled false false true = (refl, refl, refl, refl, refl)
writes_handled false false false = (refl, refl, refl, refl, refl)

-- For every version of the kernel: a rule of the read list asks for no right that the ruleset does not
-- handle, and, unless a device stands at the path, for none but executing and reading.
pub read_rule_lem :
    (kind : Kind) (abi : ℕ)
    → Includes (ll_handled_fs abi) (read_rule kind abi)
      × (kind ≢ device → Includes executes_and_reads (read_rule kind abi))
unfolding read_rule rule_access ll_handled_fs ll_read_bits
read_rule_lem directory abi =
    let t = reads_handled (leb 2 abi) (leb 3 abi) (leb 5 abi) in (t.0, λ _. t.3)
read_rule_lem unstated abi =
    let t = reads_handled (leb 2 abi) (leb 3 abi) (leb 5 abi) in (t.0, λ _. t.3)
read_rule_lem regular abi =
    let t = reads_handled (leb 2 abi) (leb 3 abi) (leb 5 abi) in (t.1, λ _. t.4)
read_rule_lem device abi =
    let t = reads_handled (leb 2 abi) (leb 3 abi) (leb 5 abi) in (t.2, λ ne. absurd (ne refl))

abbrev pub IsFile : Kind → Type 0
IsFile kind = (kind ≡ regular) ⊎ (kind ≡ device)

-- For every version of the kernel: a rule of the write list asks for no right that the ruleset does not
-- handle, and for a file or a device for none that only a directory can have.
pub write_rule_lem :
    (kind : Kind) (abi : ℕ)
    → Includes (ll_handled_fs abi) (write_rule kind abi)
      × (IsFile kind → bit_and (write_rule kind abi) dir_bits ≡ 0)
unfolding write_rule rule_access ll_handled_fs ll_write_bits ll_read_bits
write_rule_lem directory abi =
    let t = writes_handled (leb 2 abi) (leb 3 abi) (leb 5 abi) in
    (t.0, λ f. elim f [ inl e ↦ absurd (cc) | inr e ↦ absurd (cc) ])
write_rule_lem unstated abi =
    let t = writes_handled (leb 2 abi) (leb 3 abi) (leb 5 abi) in
    (t.0, λ f. elim f [ inl e ↦ absurd (cc) | inr e ↦ absurd (cc) ])
write_rule_lem regular abi =
    let t = writes_handled (leb 2 abi) (leb 3 abi) (leb 5 abi) in (t.1, λ _. t.3)
write_rule_lem device abi =
    let t = writes_handled (leb 2 abi) (leb 3 abi) (leb 5 abi) in (t.2, λ _. t.4)
