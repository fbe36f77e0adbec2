-- ===== src/Cap/Tokens.antt =====
-- The token store. `pthread_once` runs each `*_once_init` before the first use of its tokens, so
-- every operation of the other modules takes the store that it left; `Exit` has the handlers that
-- they register for the end of the process. What `getentropy` wrote into
-- `b` is a parameter; where it fails the process aborts, and there is no store.
pub mod Laws
pub mod Exit
use oodar.Base.{ℕ, zero, suc, ◌+◌, ◌*◌, ◌-◌, ltb, ◌==◌, if◌then◌else◌, ◌||◌}
use oodar.Base.{List, [], ◌∷◌, Bool, false, Option, get_or, Run, returns, aborts, ◌>>=◌, none, some}
use oodar.Base.{ℤ, pos, negsuc}
use Prim.Native.Nat.{bit_xor}

-- The 26 kinds of token, in the order of `oo_cap_self_token`.
pub data CapKind : Type 0 where
  fs sys env net sign process tcp udp bind audio camera usb hid window frame : CapKind
  fsread fswrite arena thread gpu compiler_read metrics alloc time rand ffi : CapKind

-- The `g_tok_*` globals by their kind, with the flags that a grant or the test hook sets.
pub record CapState : Type 0 where
  pub token : CapKind → ℕ
  pub process_handed : Bool
  pub sand_net : Bool
  pub sand_proc : Bool
  pub test_force_fail : Bool

-- `for (i = 0; i < 8; i++) ent = (ent << 8) | b[off + i];`
unfoldable pub entropy_from : ℕ → ℕ → (ℕ → ℕ) → ℕ → ℕ
entropy_from zero ent b i = ent
entropy_from (suc left) ent b i = entropy_from left (ent * 256 + b i) b (i + 1)

abbrev pub is_classic : ℕ → Bool
is_classic tok =
    tok == 0x4F4F4653 || (tok == 0x4F4F5359 || (tok == 0x4F4F454E || tok == 0x4F4F4E54))

-- The band argument is not used.
pub make_cap_tok : (ℕ → ℕ) → ℕ → ℕ
unfolding entropy_from
make_cap_tok b off =
    let tok = entropy_from 8 0 b off in if is_classic tok then bit_xor tok 0x11111111 else tok

-- `oo_cap_init` of the sub-stores: one magic value is flipped, and zero becomes 1.
abbrev nonzero : ℕ → ℕ
nonzero tok = if tok == 0 then 1 else tok

pub alloc_init_once : (ℕ → ℕ) → ℕ
unfolding entropy_from
alloc_init_once b =
    let ent = entropy_from 8 0 b 0 in
    nonzero (if ent == 0x4F4F414C then bit_xor ent 0x11111111 else ent)

pub ffi_once_init : (ℕ → ℕ) → ℕ
unfolding entropy_from
ffi_once_init b =
    let ent = entropy_from 8 0 b 0 in
    nonzero (if ent == 0x4F4F4649 then bit_xor ent 0x11111111 else ent)

-- Here the zero test comes first.
pub tr_once_init : (ℕ → ℕ) → ℕ × ℕ
unfolding entropy_from
tr_once_init b =
    let t = nonzero (entropy_from 8 0 b 0) in
    let r = nonzero (entropy_from 8 0 b 8) in
    (
      if t == 0x4F4F544D then bit_xor t 0x11111111 else t,
      if r == 0x4F4F524E then bit_xor r 0x11111111 else r,
    )

-- The offset into `b` that `caps_once_init` reads a token of caps.c from; the last four kinds have
-- their own store.
pub offset : CapKind → Option ℕ
offset fs = some 0
offset sys = some 7
offset env = some 14
offset net = some 21
offset sign = some 28
offset process = some 35
offset tcp = some 63
offset udp = some 70
offset bind = some 77
offset audio = some 84
offset camera = some 91
offset usb = some 98
offset hid = some 105
offset window = some 112
offset frame = some 119
offset fsread = some 126
offset fswrite = some 133
offset arena = some 140
offset thread = some 147
offset gpu = some 154
offset compiler_read = some 161
offset metrics = some 168
offset _ = none

-- What the five calls of `getentropy` wrote.
pub record Entropy : Type 0 where
  pub caps_bytes : ℕ → ℕ
  pub alloc_bytes : ℕ → ℕ
  pub tr_bytes : ℕ → ℕ
  pub ffi_bytes : ℕ → ℕ

-- A token of the sub-stores.
sub_store : Entropy → CapKind → ℕ
unfolding alloc_init_once ffi_once_init tr_once_init
sub_store e alloc = alloc_init_once e.alloc_bytes
sub_store e time = (tr_once_init e.tr_bytes).0
sub_store e rand = (tr_once_init e.tr_bytes).1
sub_store e _ = ffi_once_init e.ffi_bytes

pub caps_once_init : Entropy → CapState
unfolding make_cap_tok offset sub_store
caps_once_init e = record {
  token = λ k. elim (offset k) [ some off ↦ make_cap_tok e.caps_bytes off | none ↦ sub_store e k ];
  process_handed = false;
  sand_net = false;
  sand_proc = false;
  test_force_fail = false;
}

-- `CAP_TOKENS` with the four sub-store tokens behind it.
abbrev pub cap_tokens : List CapKind
cap_tokens =
    fs ∷ sys ∷ env ∷ net ∷ sign ∷ process ∷ tcp ∷ udp ∷ bind ∷ audio ∷ camera ∷ usb ∷ hid ∷ window
    ∷ frame ∷ fsread ∷ fswrite ∷ arena ∷ thread ∷ gpu ∷ compiler_read ∷ metrics ∷ alloc ∷ time
    ∷ rand ∷ ffi ∷ []

-- Returns the token at index `which`, and 0 out of range.
pub oo_cap_self_token : CapState → ℤ → ℕ
oo_cap_self_token s (negsuc n) = 0
oo_cap_self_token s (pos which) = if ltb which 26 then s.token (get_or cap_tokens which fs) else 0
