-- ===== src/Lists.antt =====
-- core/list: lists as handles to reference-counted payloads, in one definition for the element types:
-- a family says how an element is retained and released (llist.c has the lists of lists the same way).
-- A payload stands at an address of a store; a freed one is gone. The ledger of the ambient quota is
-- shared by the lists and by what their elements are made of. The atomic operations of one call are
-- one step. A handle's length and capacity come from these operations and are never negative.
pub mod Payload
pub mod Ops
pub mod Slice
pub mod Count
pub mod Holds
pub mod Push
pub mod Set
pub mod Kinds
pub mod Quota
pub mod Capacity
mod Tests
use oodar.Base.{
  ℕ, zero, suc, ◌+◌, ◌%◌, ◌^◌, ◌-◌, ltb, leb, ◌==◌, if◌then◌else◌, ◌&&◌, ◌||◌, not, add64, sub64,
}
use oodar.Base.{Bool, true, false, Option, none, some}

-- `oo_list_ambient_quota` and `oo_list_ambient_bytes`, the latter as its 64 bits.
pub record Ledger : Type 0 where
  pub quota : ℕ
  pub bytes : ℕ

-- The header and the elements of a payload.
pub record OoListBlock {ℓ} (A : Type ℓ) : Type ℓ where
  pub ref_count : ℕ
  pub flags : ℕ
  pub items : ℕ → A

-- The handle: the address is 0 for NULL.
pub record OoList : Type 0 where
  pub addr : ℕ
  pub len : ℕ
  pub capacity : ℕ

-- The payloads by address, and what the elements refer to.
pub record Lists {ℓ} (A H : Type ℓ) : Type ℓ where
  pub block : ℕ → Option (OoListBlock A)
  pub held : H

-- `static_only`: the retain looks at the static flag only. `unchecked`: the release tests only for
-- NULL.
pub record Family {ℓ} (A H : Type ℓ) : Type ℓ where
  pub elem_size : ℕ
  pub keep : A → Ledger × H → Ledger × H
  pub loose : A → Ledger × H → Ledger × H
  pub static_only : Bool
  pub unchecked : Bool

module _ {ℓ} {A H : Type ℓ} where
  abbrev pub put : ℕ → Option (OoListBlock A) → Ledger × Lists A H → Ledger × Lists A H
  put a o s = (s.0, record s.1 { block = λ j. if j == a then o else s.1.block j })

  -- A call on what the elements refer to.
  abbrev pub within : (Ledger × H → Ledger × H) → Ledger × Lists A H → Ledger × Lists A H
  within f s = let r = f (s.0, s.1.held) in (r.0, record { block = s.1.block; held = r.1 })

module _ {ℓ} {A : Type ℓ} where
  -- The elements of a payload; those of `d` where there is none.
  abbrev pub contents : Option (OoListBlock A) → (ℕ → A) → ℕ → A
  contents none d = d
  contents (some b) d = b.items

  -- `OO_LIST_FLAG_ARENA` is 2, and the static flag is 1.
  abbrev counted_block : Option (OoListBlock A) → Bool
  counted_block none = false
  counted_block (some b) =
      not (b.ref_count == 0)
      && (not (b.ref_count == 2 ^ 32 - 1) && (leb b.ref_count 1000000 && b.flags % 4 == 0))

  unfoldable pub oo_list_hdr_ok : (ℕ → Option (OoListBlock A)) → OoList → Bool
  oo_list_hdr_ok block l =
      not (l.addr == 0)
      && (leb l.len (2 ^ 28)
          && (leb l.capacity (2 ^ 28)
              && ((l.capacity == 0 || leb l.len l.capacity)
                  && (leb 16 l.addr && counted_block (block l.addr)))))

  abbrev owned_block : Option (OoListBlock A) → Bool
  owned_block none = false
  owned_block (some b) = b.ref_count == 1 && (b.flags == 0 || b.flags == 2)

  unfoldable pub oo_list_owned : (ℕ → Option (OoListBlock A)) → ℕ → Bool
  oo_list_owned block a = not (a == 0) && owned_block (block a)

-- The handle of the `new` of every family.
abbrev pub list_new : OoList
list_new = record { addr = 0; len = 0; capacity = 0 }
