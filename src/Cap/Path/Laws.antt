-- ===== src/Cap/Path/Laws.antt =====
-- What a path cap admits.
use oodar.Base.{ℕ, ◌≡◌, ◌≢◌, ◌↔◌, inl, inr, refl, arith, ap, sym, ◌∙◌}
use oodar.Base.{
  List, [], ◌∷◌, ◌++◌, append_assoc, append-nil, length, length-append, take, get_or, drop, subst,
  take-append-drop, take-length, true, false, returns, exits, >>=-returns, not, ltb, if◌then◌else◌,
}
use oodar.Base.{Bool-cases, ◌==◌}
use oodar.Cap.Tokens.{CapKind, CapState}
use oodar.Cap.Gates.{oo_cap_require_kind}
use oodar.Cap.Gates.Laws.{gate_nonzero}
use oodar.Cap.Path.{bytes_eq, starts_at_root, oo_path_prefix_nests, OoPathCap, empty_cap}
use oodar.Cap.Path.{
  mac_hex, sealed, oo_attenuate_fsread_to_path, oo_path_cap_check, oo_attenuate_pathcap_to_path,
  oo_path_cap_hex_decode,
}

bytes_eq_iff : (xs ys : List ℕ) → (bytes_eq xs ys ≡ true) ↔ (xs ≡ ys)
unfolding bytes_eq
bytes_eq_iff [] [] = (λ e. refl, λ e. refl)
bytes_eq_iff [] (y ∷ ys) = (λ e. cc, λ e. cc)
bytes_eq_iff (x ∷ xs) [] = (λ e. cc, λ e. cc)
bytes_eq_iff (x ∷ xs) (y ∷ ys) = ground (arith, bytes_eq_iff xs ys)

-- The loop-free reading of the prefix test: below a prefix stand itself and what continues it with
-- a slash, and below the root every absolute path.
pub data Nests (prefix path : List ℕ) : Type 0 where
  root : prefix ≡ b'/' ∷ [] → starts_at_root path ≡ true → Nests prefix path
  same : starts_at_root prefix ≡ true → path ≡ prefix → Nests prefix path
  inside :
      (rest : List ℕ)
      → starts_at_root prefix ≡ true
      → path ≡ prefix ++ (b'/' ∷ rest)
      → Nests prefix path

take-append : (xs ys : List ℕ) → take (length xs) (xs ++ ys) ≡ xs
take-append [] ys = refl
take-append (x ∷ xs) ys = ap (λ l. x ∷ l) (take-append xs ys)

get_or-append : (xs ys : List ℕ) (d : ℕ) → get_or (xs ++ ys) (length xs) d ≡ get_or ys 0 d
get_or-append [] ys d = refl
get_or-append (x ∷ xs) ys d = get_or-append xs ys d

starts_at_root-append :
    (xs ys : List ℕ) → starts_at_root xs ≡ true → starts_at_root (xs ++ ys) ≡ true
unfolding starts_at_root
starts_at_root-append [] ys h = cc
starts_at_root-append (x ∷ xs) ys h = h

one_root : (xs : List ℕ) → starts_at_root xs ≡ true → length xs ≡ 1 → xs ≡ b'/' ∷ []
unfolding starts_at_root
one_root [] r h = cc
one_root (x ∷ []) r h = ground arith
one_root (x ∷ y ∷ xs) r h = absurd (omega arith)

-- What the tests say once the path is known to continue the prefix by `d`.
from_rest :
    (prefix d : List ℕ)
    → oo_path_prefix_nests prefix (prefix ++ d) ≡ true
    → Nests prefix (prefix ++ d)
unfolding oo_path_prefix_nests
from_rest prefix [] e = same (ground arith) (append-nil prefix)
from_rest prefix (c ∷ d) e = elim (Bool-cases (length prefix == 1)) [
  | inl one ↦ root (one_root prefix (ground arith) (ground arith)) (ground arith)
  | inr more ↦
      let slash : c ≡ b'/' =
        ground (arith, get_or-append prefix (c ∷ d) 0, length-append prefix (c ∷ d)) in
      inside d (ground arith) (ap (λ (x : ℕ). prefix ++ (x ∷ d)) slash)
]

-- The prefix test accepts exactly the prefix itself, what continues it with a slash, and, for the
-- prefix `/`, every absolute path.
pub Nests-iff :
    (prefix path : List ℕ) → (oo_path_prefix_nests prefix path ≡ true) ↔ Nests prefix path
unfolding oo_path_prefix_nests
Nests-iff prefix path = (fwd, bwd)
  where
    split :
        (bytes_eq (take (length prefix) path) prefix ≡ true)
        → path ≡ prefix ++ drop (length prefix) path
    split e =
        sym (take-append-drop (length prefix) path)
        ∙ ap (λ l. l ++ drop (length prefix) path) ((bytes_eq_iff _ _).0 e)

    fwd : oo_path_prefix_nests prefix path ≡ true → Nests prefix path
    fwd e = elim (Bool-cases (length prefix == 1)) [
      | inl one ↦ root (one_root prefix (ground arith) (ground arith)) (ground arith)
      | inr more ↦
          let whole = split (ground arith) in
          subst (Nests prefix) (sym whole) (
            from_rest prefix (drop (length prefix) path)
              (subst (λ p. oo_path_prefix_nests prefix p ≡ true) whole e))
    ]

    bwd : Nests prefix path → oo_path_prefix_nests prefix path ≡ true
    bwd (root p a) = rw (p, a)
    bwd (same r e) = rw e (ground (arith, take-length prefix, (bytes_eq_iff prefix prefix).1 refl))
    bwd (inside rest r e) = rw e (
        ground (
          arith,
          take-append prefix (b'/' ∷ rest),
          get_or-append prefix (b'/' ∷ rest) 0,
          length-append prefix (b'/' ∷ rest),
          starts_at_root-append prefix (b'/' ∷ rest) r,
          (bytes_eq_iff prefix prefix).1 refl,
        ))

path_starts_at_root : {p q : List ℕ} → Nests p q → starts_at_root q ≡ true
path_starts_at_root (root e r) = r
path_starts_at_root (same r e) = rw e r
path_starts_at_root {p} (inside rest r e) = rw e (starts_at_root-append p (b'/' ∷ rest) r)

too_long : (p rest : List ℕ) → starts_at_root p ≡ true → p ++ (b'/' ∷ rest) ≡ b'/' ∷ [] → ⊥
unfolding starts_at_root
too_long [] rest s e = cc
too_long (x ∷ p) rest s e = omega (arith, ap length e, length-append p (b'/' ∷ rest))

-- Narrowing twice stays inside the first prefix.
Nests-trans : {p q r : List ℕ} → Nests p q → Nests q r → Nests p r
Nests-trans (root e s) n = root e (path_starts_at_root n)
Nests-trans {p} {q} {r} (same s e) n = subst (λ x. Nests x r) e n
Nests-trans {p} (inside rest s e) (same t f) = inside rest s (f ∙ e)
Nests-trans {p} (inside rest s e) (inside more t f) =
    inside (rest ++ (b'/' ∷ more)) s
      (f ∙ ap (λ l. l ++ (b'/' ∷ more)) e ∙ append_assoc p (b'/' ∷ rest) (b'/' ∷ more))
Nests-trans {p} (inside rest s e) (root f t) = absurd (too_long p rest s (sym e ∙ f))

module _ (hmac : List ℕ → List ℕ) where
  sealed_check :
      (s : CapState) (token : ℕ) (prefix path : List ℕ) {c : OoPathCap} {s' : CapState}
      → token ≢ 0
      → (if not (starts_at_root prefix)
          then exits 1
          else if ltb 4096 (length prefix)
          then exits 1
          else sealed hmac s token prefix)
        ≡ returns (c, s')
      → (c.prefix ≡ prefix)
        × (c.parent_cap ≡ token)
        × (oo_path_cap_check hmac c path ≡ oo_path_prefix_nests prefix path)
  unfolding oo_path_cap_check sealed
  sealed_check s token prefix path nz h = ground (
    arith,
    (bytes_eq_iff (oo_path_cap_hex_decode (mac_hex hmac token prefix))
          (oo_path_cap_hex_decode (mac_hex hmac token prefix))).1
        refl,
  )

  -- Where a path cap was handed out for a prefix, it keeps the prefix and the parent token, and its
  -- check admits exactly the paths that the prefix test accepts.
  pub check-attenuate :
      (s : CapState) (token : ℕ) (prefix path : List ℕ) {c : OoPathCap} {s' : CapState}
      → oo_attenuate_fsread_to_path hmac s token prefix ≡ returns (c, s')
      → (c.prefix ≡ prefix)
        × (c.parent_cap ≡ token)
        × (oo_path_cap_check hmac c path ≡ oo_path_prefix_nests prefix path)
  unfolding oo_attenuate_fsread_to_path
  check-attenuate s token prefix path h =
      let (s1, gate, rest) = >>=-returns (oo_cap_require_kind CapKind.fsread s token) _ h in
      sealed_check s1 token prefix path (gate_nonzero s CapKind.fsread token gate) rest

  check_empty : (path : List ℕ) → oo_path_cap_check hmac empty_cap path ≡ false
  unfolding oo_path_cap_check starts_at_root
  check_empty path = refl

  check_moves :
      (c : OoPathCap) (p q : List ℕ)
      → oo_path_cap_check hmac c p ≡ true
      → oo_path_prefix_nests c.prefix q ≡ true
      → oo_path_cap_check hmac c q ≡ true
  unfolding oo_path_cap_check
  check_moves c p q h n = ground arith

  -- Where a path cap was narrowed to a child prefix, a path that the result admits is admitted by
  -- the parent.
  pub narrowed_admits_less :
      (s : CapState) (parent : OoPathCap) (child path : List ℕ) {c : OoPathCap} {s' : CapState}
      → oo_attenuate_pathcap_to_path hmac s parent child ≡ returns (c, s')
      → oo_path_cap_check hmac c path ≡ true
      → oo_path_cap_check hmac parent path ≡ true
  unfolding oo_attenuate_pathcap_to_path
  narrowed_admits_less s parent child path {c} {s'} h ok =
      elim (Bool-cases (oo_path_cap_check hmac parent parent.prefix)) [
        | inr bad ↦ ground (arith, check_empty path)
        | inl good ↦ elim (Bool-cases (oo_path_prefix_nests parent.prefix child)) [
          | inr bad ↦ ground (arith, check_empty path)
          | inl inner ↦
              let made =
                check-attenuate s parent.parent_cap child path {c = c} {s' = s'} (ground arith) in
              check_moves parent parent.prefix path good (
                (Nests-iff parent.prefix path).1 (
                  Nests-trans ((Nests-iff parent.prefix child).0 inner)
                    ((Nests-iff child path).0 (sym made.2 ∙ ok))))
        ]
      ]
