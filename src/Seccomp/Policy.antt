-- ===== src/Seccomp/Policy.antt =====
-- Each filter returns what a table of the calls says.
use oodar.Base.{
  ℕ, ◌+◌, ◌≡◌, refl, arith, List, [], ◌∷◌, ◌++◌, Option, none, some, Bool, true, false,
  if◌then◌else◌, ◌==◌, ◌||◌, ◌&&◌, not, Bool-cases, inl, inr, length, ◌≤◌, length-append,
  append_assoc,
}
use oodar.Seccomp.{
  SockFilter, ret, Build, Actions, gate, gate_clone, gate_open, gates, assert_arch, fsw_gates,
  capf_filter, sand_filter, seccomp_ret_allow, seccomp_ret_kill_process, clone_thread,
}
use oodar.Seccomp.Machine.{SeccompData, overlaps, Bpf}

-- `n` is the number of the call; no number is that of a call which the target does not have.
abbrev pub is_call : Option ℕ → ℕ → Bool
is_call none n = false
is_call (some k) n = n == k

abbrev pub net_call : Build → ℕ → Bool
net_call b n = is_call b.sys_socket n || (is_call b.sys_connect n || is_call b.sys_bind n)

abbrev pub process_call : Build → ℕ → Bool
process_call b n =
    is_call b.sys_fork n
    || (is_call b.sys_vfork n || (is_call b.sys_execve n || is_call b.sys_execveat n))

-- An `openat` or `open` whose flags ask for more than reading.
abbrev pub opens_to_write : Build → SeccompData → Bool
opens_to_write b d =
    if is_call b.sys_openat d.nr
    then overlaps (d.args 2) b.open_write_bits
    else (is_call b.sys_open d.nr && overlaps (d.args 1) b.open_write_bits)

-- What becomes of a call that is not foreign.
abbrev pub native_policy : Build → Actions → Bool → SeccompData → ℕ
native_policy b a fsw_ok d =
    if net_call b d.nr
    then a.net_act
    else if process_call b d.nr
    then a.proc_act
    else if is_call b.sys_clone3 d.nr
    then a.clone3_act
    else if is_call b.sys_clone d.nr
    then (if overlaps (d.args 0) clone_thread then seccomp_ret_allow else a.proc_act)
    else if not fsw_ok && opens_to_write b d
    then seccomp_ret_kill_process
    else seccomp_ret_allow

abbrev pub policy : Build → ℕ → Actions → Bool → SeccompData → ℕ
policy b arch a fsw_ok d =
    if d.arch == arch then native_policy b a fsw_ok d else seccomp_ret_kill_process

module _ (m : Bpf) (d : SeccompData) where
  run-gate :
      (nr? : Option ℕ) (act : ℕ) (rest : List SockFilter) (a : ℕ)
      → m.run (gate nr? act ++ rest) a d ≡ (if is_call nr? a then some act else m.run rest a d)
  unfolding gate
  run-gate none act rest a = refl
  run-gate (some n) act rest a = elim (Bool-cases (a == n)) [
    | inl e ↦ rw (m.run-jeq, e) (m.run-ret _ _ _ _)
    | inr e ↦ rw (m.run-jeq, e) refl
  ]

  run-gate_clone :
      (nr? : Option ℕ) (act : ℕ) (rest : List SockFilter) (a : ℕ)
      → m.run (gate_clone nr? act ++ rest) a d ≡ (
          if is_call nr? a
          then some (if overlaps (d.args 0) clone_thread then seccomp_ret_allow else act)
          else m.run rest a d)
  unfolding gate_clone
  run-gate_clone none act rest a = refl
  run-gate_clone (some n) act rest a = elim (Bool-cases (a == n)) [
    | inr e ↦ rw (m.run-jeq, e) refl
    | inl e ↦ elim (Bool-cases (overlaps (d.args 0) clone_thread)) [
      | inl f ↦ rw (m.run-jeq, e, m.run-ld, m.run-jset, f) (m.run-ret _ _ _ _)
      | inr f ↦ rw (m.run-jeq, e, m.run-ld, m.run-jset, f) (m.run-ret _ _ _ _)
    ]
  ]

  run-gate_open :
      (nr? : Option ℕ) (i bits : ℕ) (rest : List SockFilter) (a : ℕ)
      → m.run (gate_open nr? i bits ++ rest) a d ≡ (
          if is_call nr? a
          then some
              (if overlaps (d.args i) bits then seccomp_ret_kill_process else seccomp_ret_allow)
          else m.run rest a d)
  unfolding gate_open
  run-gate_open none i bits rest a = refl
  run-gate_open (some n) i bits rest a = elim (Bool-cases (a == n)) [
    | inr e ↦ rw (m.run-jeq, e) refl
    | inl e ↦ elim (Bool-cases (overlaps (d.args i) bits)) [
      | inl f ↦ rw (m.run-jeq, e, m.run-ld, m.run-jset, f) (m.run-ret _ _ _ _)
      | inr f ↦ rw (m.run-jeq, e, m.run-ld, m.run-jset, f) (m.run-ret _ _ _ _)
    ]
  ]

  pub run-gates :
      (b : Build) (acts : Actions) (rest : List SockFilter) (a : ℕ)
      → m.run (gates b acts rest) a d ≡ (
          if net_call b a
          then some acts.net_act
          else if process_call b a
          then some acts.proc_act
          else if is_call b.sys_clone3 a
          then some acts.clone3_act
          else if is_call b.sys_clone a
          then some (if overlaps (d.args 0) clone_thread then seccomp_ret_allow else acts.proc_act)
          else m.run rest a d)
  unfolding gates
  run-gates b acts rest a = simp (run-gate, run-gate_clone) (ground arith)

  run-fsw_gates :
      (b : Build) (fsw_ok : Bool) (a : ℕ)
      → a ≡ d.nr
      → m.run (fsw_gates b fsw_ok ++ (ret seccomp_ret_allow ∷ [])) a d
        ≡ some (
            if not fsw_ok && opens_to_write b d
            then seccomp_ret_kill_process
            else seccomp_ret_allow)
  unfolding fsw_gates
  run-fsw_gates b true a e = m.run-ret _ _ _ _
  run-fsw_gates b false a e = rw e simp (append_assoc, run-gate_open, m.run-ret) (ground arith)

  run-assert_arch :
      (arch : ℕ) (rest : List SockFilter) (a : ℕ)
      → m.run (assert_arch arch rest) a d
        ≡ (if d.arch == arch then m.run rest d.nr d else some seccomp_ret_kill_process)
  unfolding assert_arch
  run-assert_arch arch rest a = elim (Bool-cases (d.arch == arch)) [
    | inl e ↦ rw (m.run-ld, m.run-jeq, e) (m.run-ld _ _ _ _)
    | inr e ↦ rw (m.run-ld, m.run-jeq, e) (m.run-ret _ _ _ _)
  ]

  -- The filter that `capf_install` writes returns for every call what the table says: a call of
  -- another architecture is killed, each group of calls gets its action, a new thread is let through,
  -- opening for writing is killed unless it was granted, and any other call is allowed.
  pub run-capf_filter :
      (b : Build) (arch : ℕ) (acts : Actions) (fsw_ok : Bool) (a : ℕ)
      → m.run (capf_filter b arch acts fsw_ok) a d ≡ some (policy b arch acts fsw_ok d)
  unfolding capf_filter
  run-capf_filter b arch acts fsw_ok a =
      simp (run-assert_arch, run-gates, run-fsw_gates b fsw_ok d.nr refl) (ground arith)

  -- The older filter of the sandbox returns what the table says where writing is granted.
  pub run-sand_filter :
      (b : Build) (arch : ℕ) (acts : Actions) (a : ℕ)
      → m.run (sand_filter b arch acts) a d ≡ some (policy b arch acts true d)
  unfolding sand_filter
  run-sand_filter b arch acts a = simp (run-assert_arch, run-gates, m.run-ret) (ground arith)

length-gate : (nr? : Option ℕ) (act : ℕ) → length (gate nr? act) ≤ 2
unfolding gate
length-gate none act = omega arith
length-gate (some n) act = omega arith

length-gate_clone : (nr? : Option ℕ) (act : ℕ) → length (gate_clone nr? act) ≤ 5
unfolding gate_clone
length-gate_clone none act = omega arith
length-gate_clone (some n) act = omega arith

length-gate_open : (nr? : Option ℕ) (i bits : ℕ) → length (gate_open nr? i bits) ≤ 5
unfolding gate_open
length-gate_open none i bits = omega arith
length-gate_open (some n) i bits = omega arith

length-gates :
    (b : Build) (acts : Actions) (rest : List SockFilter)
    → length (gates b acts rest) ≤ 21 + length rest
unfolding gates
length-gates b acts rest = omega (arith, length-append {0}, length-gate, length-gate_clone)

length-fsw_gates : (b : Build) (fsw_ok : Bool) → length (fsw_gates b fsw_ok) ≤ 10
unfolding fsw_gates
length-fsw_gates b true = omega arith
length-fsw_gates b false = omega (arith, length-append {0}, length-gate_open)

-- On every target and for every request the writes stay inside the 64 instructions of `f`: the test
-- behind the writes never fails.
pub capf_filter-within :
    (b : Build) (arch : ℕ) (acts : Actions) (fsw_ok : Bool)
    → length (capf_filter b arch acts fsw_ok) ≤ 36
unfolding capf_filter assert_arch
capf_filter-within b arch acts fsw_ok =
    omega (arith, length-append {0}, length-gates, length-fsw_gates)
