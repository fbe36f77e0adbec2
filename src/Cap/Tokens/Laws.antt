-- ===== src/Cap/Tokens/Laws.antt =====
-- What a freshly drawn token store holds.
use oodar.Base.{ℕ, ◌%◌, ◌/◌, ◌^◌, ◌<◌, ◌≡◌, ◌≢◌, refl, arith, false, pos, get_or}
use oodar.Cap.Tokens.{
  CapState, Entropy, entropy_from, make_cap_tok, caps_once_init, is_classic, oo_cap_self_token,
  cap_tokens,
}
use oodar.Cap.Tokens.{
  CapKind, fs, sys, env, net, sign, process, tcp, udp, bind, audio, camera, usb, hid, window, frame,
  fsread, fswrite, arena, thread, gpu, compiler_read, metrics, alloc, time, rand, ffi,
}

-- No token that `make_cap_tok` derives is one of the four classic ASCII magics, whatever the entropy.
pub make_cap_tok-not_classic : (b : ℕ → ℕ) (off : ℕ) → is_classic (make_cap_tok b off) ≡ false
unfolding make_cap_tok
make_cap_tok-not_classic b off = ground arith

-- The position of a kind in `cap_tokens`.
unfoldable pub index_of : CapKind → ℕ
index_of fs = 0
index_of sys = 1
index_of env = 2
index_of net = 3
index_of sign = 4
index_of process = 5
index_of tcp = 6
index_of udp = 7
index_of bind = 8
index_of audio = 9
index_of camera = 10
index_of usb = 11
index_of hid = 12
index_of window = 13
index_of frame = 14
index_of fsread = 15
index_of fswrite = 16
index_of arena = 17
index_of thread = 18
index_of gpu = 19
index_of compiler_read = 20
index_of metrics = 21
index_of alloc = 22
index_of time = 23
index_of rand = 24
index_of ffi = 25

-- `cap_tokens` lists each kind at its index.
pub kind_at-index_of : (k : CapKind) → get_or cap_tokens (index_of k) fs ≡ k
unfolding index_of
kind_at-index_of fs = refl
kind_at-index_of _ = refl

pub index_of-lt : (k : CapKind) → index_of k < 26
unfolding index_of
index_of-lt fs = omega arith
index_of-lt _ = omega arith

pub self_token-index_of :
    (s : CapState) (k : CapKind) → oo_cap_self_token s (pos (index_of k)) ≡ s.token k
unfolding index_of oo_cap_self_token
self_token-index_of s fs = refl
self_token-index_of s _ = refl

-- Bytes are below 256.
abbrev pub AreBytes : (ℕ → ℕ) → Type 0
AreBytes b = (i : ℕ) → b i < 256

-- Where the entropy is bytes and neither token was a classic magic before its repair, the last byte
-- of the `fs` token is the first of the `sys` token.
pub neighbours_share_byte :
    (e : Entropy)
    → AreBytes e.caps_bytes
    → is_classic (entropy_from 8 0 e.caps_bytes 0) ≡ false
    → is_classic (entropy_from 8 0 e.caps_bytes 7) ≡ false
    → (caps_once_init e).token fs % 256 ≡ (caps_once_init e).token sys / 2 ^ 56
unfolding caps_once_init
neighbours_share_byte e by p q = ground (
  arith,
  by 0,
  by 1,
  by 2,
  by 3,
  by 4,
  by 5,
  by 6,
  by 7,
  by 8,
  by 9,
  by 10,
  by 11,
  by 12,
  by 13,
  by 14,
)

-- The four tokens of the sub-stores are not 0, whatever the entropy.
pub sub_store_ne_zero :
    (e : Entropy)
    → let s = caps_once_init e in
      (s.token alloc ≢ 0) × (s.token ffi ≢ 0) × (s.token time ≢ 0) × (s.token rand ≢ 0)
unfolding caps_once_init
sub_store_ne_zero e = ground arith

-- A token of caps.c has no such repair: entropy of zeros gives a token 0.
pub core_token_zero :
    (e : Entropy) → ((i : ℕ) → e.caps_bytes i ≡ 0) → (caps_once_init e).token fs ≡ 0
unfolding caps_once_init
core_token_zero e z = ground (arith, z 0, z 1, z 2, z 3, z 4, z 5, z 6, z 7)
