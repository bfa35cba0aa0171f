-- ===== src/Options/Masked.antt =====
-- internal/source_range.go: what masking keeps of an address.
use docker_port_forward.Common.{
  ◌≡◌, refl, sym, ap, subst, true, Bool-cases, inl, inr, List, [], ◌∷◌, ℕ, ◌-◌, ◌*◌, ◌/◌, ◌^◌, leb,
  arith,
}
use docker_port_forward.Netip.{Addr, invalid, v4, v6, Prefix, no_prefix, prefix_of, mask, masked}
use native.Mathlib.Nat.{mul-div_cancel, one-le-pow}

cleared_twice : (x k : ℕ) → x / 2 ^ k * 2 ^ k / 2 ^ k * 2 ^ k ≡ x / 2 ^ k * 2 ^ k
cleared_twice x k = ap (λ y. y * 2 ^ k) (mul-div_cancel (x / 2 ^ k) (one-le-pow k 2 (omega arith)))

mask_twice : (w bits : ℕ) (xs : List ℕ) → mask w bits (mask w bits xs) ≡ mask w bits xs
unfolding mask
mask_twice w bits [] = refl
mask_twice w bits (x ∷ xs) = elim (Bool-cases (leb w bits)) [
  | inl kept ↦ rw (kept, mask_twice w (bits - w) xs) refl
  | inr cut_off ↦ rw (cut_off, cleared_twice x (w - bits), mask_twice w (bits - w) xs) refl
]

pub masked_twice : (p : Prefix) → masked (masked p) ≡ masked p
unfolding masked
masked_twice no_prefix = refl
masked_twice (prefix_of invalid bits) = refl
masked_twice (prefix_of (v4 bytes) bits) = ap (λ b. prefix_of (v4 b) bits) (mask_twice 8 bits bytes)
masked_twice (prefix_of (v6 groups zone) bits) =
    ap (λ g. prefix_of (v6 g zone) bits) (mask_twice 16 bits groups)

-- The words agree in the first `n` bits.
abbrev pub SameWords : ℕ → ℕ → List ℕ → List ℕ → Type 0
SameWords w n [] [] = Unit
SameWords w n [] (y ∷ ys) = ⊥
SameWords w n (x ∷ xs) [] = ⊥
SameWords w n (x ∷ xs) (y ∷ ys) = (x / 2 ^ (w - n) ≡ y / 2 ^ (w - n)) × SameWords w (n - w) xs ys

-- The addresses are of one kind and agree in the first `n` bits.
abbrev pub SameBits : ℕ → Addr → Addr → Type 0
SameBits n invalid b = b ≡ invalid
SameBits n (v4 xs) (v4 ys) = SameWords 8 n xs ys
SameBits n (v6 xs zone) (v6 ys zone') = SameWords 16 n xs ys × (zone ≡ zone')
SameBits n (v4 xs) invalid = ⊥
SameBits n (v4 xs) (v6 ys zone) = ⊥
SameBits n (v6 xs zone) invalid = ⊥
SameBits n (v6 xs zone) (v4 ys) = ⊥

mask-SameWords : (w n : ℕ) (xs : List ℕ) → SameWords w n xs (mask w n xs)
unfolding mask
mask-SameWords w n [] = tt
mask-SameWords w n (x ∷ xs) = elim (Bool-cases (leb w n)) [
  | inl kept ↦ rw kept (refl, mask-SameWords w (n - w) xs)
  | inr cut_off ↦ rw cut_off (
    sym (mul-div_cancel (x / 2 ^ (w - n)) (one-le-pow (w - n) 2 (omega arith))),
    mask-SameWords w (n - w) xs,
  )
]

whole_word : (w n x y : ℕ) → leb w n ≡ true → x / 2 ^ (w - n) ≡ y / 2 ^ (w - n) → x ≡ y
whole_word w n x y kept e =
    let none_cut : w - n ≡ 0 = ground arith in
    let all : x / 2 ^ 0 ≡ y / 2 ^ 0 = subst (λ k. x / 2 ^ k ≡ y / 2 ^ k) none_cut e in omega arith

mask_same : (w n : ℕ) (xs ys : List ℕ) → SameWords w n xs ys → mask w n xs ≡ mask w n ys
unfolding mask
mask_same w n [] [] h = refl
mask_same w n [] (y ∷ ys) h = absurd h
mask_same w n (x ∷ xs) [] h = absurd h
mask_same w n (x ∷ xs) (y ∷ ys) (e, h) = elim (Bool-cases (leb w n)) [
  | inl kept ↦ rw (kept, whole_word w n x y kept e, mask_same w (n - w) xs ys h) refl
  | inr cut_off ↦ rw (cut_off, e, mask_same w (n - w) xs ys h) refl
]

-- The prefix keeps the bits of the address that count.
pub masked-SameBits :
    (a : Addr) (n : ℕ) → (b : Addr) × (masked (prefix_of a n) ≡ prefix_of b n) × SameBits n a b
unfolding masked
masked-SameBits invalid n = (invalid, refl, refl)
masked-SameBits (v4 xs) n = (v4 (mask 8 n xs), refl, mask-SameWords 8 n xs)
masked-SameBits (v6 xs zone) n = (v6 (mask 16 n xs) zone, refl, (mask-SameWords 16 n xs, refl))

pub masked_same :
    (a b : Addr) (n : ℕ) → SameBits n a b → masked (prefix_of a n) ≡ masked (prefix_of b n)
unfolding masked
masked_same invalid b n h = ap (λ x. masked (prefix_of x n)) (sym h)
masked_same (v4 xs) (v4 ys) n h = ap (λ b. prefix_of (v4 b) n) (mask_same 8 n xs ys h)
masked_same (v6 xs zone) (v6 ys zone') n (h, e) =
    let groups = mask_same 16 n xs ys h in (λ i. prefix_of (v6 (groups i) (e i)) n)
masked_same (v4 xs) invalid n h = absurd h
masked_same (v4 xs) (v6 ys zone) n h = absurd h
masked_same (v6 xs zone) invalid n h = absurd h
masked_same (v6 xs zone) (v4 ys) n h = absurd h
