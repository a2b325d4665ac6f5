-- ===== src/Protection/Laws.antt =====
-- What the protection rule of src/protection.rs guarantees.
use kickoutchi.Prelude.{
  any-append, ℕ, ◌≤◌, ◌≡◌, refl, inl, inr, true, Option, none, some, List, [], ◌∷◌, ◌++◌, arith,
  Some, ◌==◌, suc, zero, ap, leb, Bool-cases, length, take,
}
use kickoutchi.Prelude.Text.{
  Text, text_eq, text_beq_refl, byte_len, lossy_prefix, byte_len-lossy_prefix, is_ascii,
}
use kickoutchi.Model.{Platform, platform_eq}
use kickoutchi.Protection.{
  linux_comm_max_bytes, linux_comm_prefix, name_matches, is_protected_process_name,
  is_protected_by_names,
}

abbrev pub Contains : List Text → Text → Type 0
Contains names name = Some (λ n. n ≡ name) names

lossy_prefix_ascii :
    (budget : ℕ) (name : Text) → is_ascii name ≡ true → lossy_prefix budget name ≡ take budget name
unfolding lossy_prefix
lossy_prefix_ascii zero [] h = refl
lossy_prefix_ascii (suc budget) [] h = refl
lossy_prefix_ascii zero (c ∷ name) h = ground arith
lossy_prefix_ascii (suc budget) (c ∷ name) h = ground (arith, lossy_prefix_ascii budget name)

byte_len_ascii : (name : Text) → is_ascii name ≡ true → byte_len name ≡ length name
byte_len_ascii [] h = refl
byte_len_ascii (c ∷ name) h = ground (arith, byte_len_ascii name)

take_all : (n : ℕ) (name : Text) → length name ≤ n → take n name ≡ name
take_all zero [] h = refl
take_all (suc n) [] h = refl
take_all zero (c ∷ name) h = absurd (omega (arith, h))
take_all (suc n) (c ∷ name) h = ap (◌∷◌ c) (take_all n name (omega (arith, h)))

name_matches_comm :
    (name : Text) → is_ascii name ≡ true → name_matches Platform.linux (take 15 name) name ≡ true
unfolding name_matches linux_comm_prefix
name_matches_comm name h = elim (Bool-cases (leb (length name) 15)) [
  | inl short ↦ rw (take_all 15 name (ground (arith, short))) (ground (arith, text_beq_refl name))
  | inr long ↦ ground (
    arith,
    byte_len_ascii name h,
    lossy_prefix_ascii 15 name h,
    text_beq_refl (take 15 name),
    long,
  )
]

-- On Linux a configured ASCII name protects the process that the kernel shows under its first 15
-- bytes, and under the name itself where that is shorter.
pub protected_kernel_name :
    (names : List Text) (name : Text)
    → is_ascii name ≡ true
    → Contains names name
    → is_protected_process_name Platform.linux (take 15 name) names ≡ true
unfolding is_protected_process_name
protected_kernel_name [] name a h = absurd h
protected_kernel_name (n ∷ names) name a (inl e) = rw e (ground (arith, name_matches_comm name a))
protected_kernel_name (n ∷ names) name a (inr h) =
    ground (arith, protected_kernel_name names name a h)

-- A kernel name has at most 17 bytes: 15 of the configured name, the last of them replaced where
-- the cut splits a scalar value.
pub linux_comm_prefix_bound : (name : Text) → byte_len (linux_comm_prefix name) ≤ 17
unfolding linux_comm_prefix
linux_comm_prefix_bound name = ground (arith, byte_len-lossy_prefix linux_comm_max_bytes name)

-- A longer configuration protects at least as much.
pub protected-append :
    (platform : Platform) (name executable : Option Text) (names more : List Text)
    → is_protected_by_names platform name executable names ≡ true
    → is_protected_by_names platform name executable (names ++ more) ≡ true
unfolding is_protected_by_names is_protected_process_name
protected-append platform none none names more h = ground arith
protected-append platform none (some e) names more h =
    ground (arith, any-append (λ protected. protected == e) names more)
protected-append platform (some n) none names more h =
    ground (arith, any-append (name_matches platform n) names more)
protected-append platform (some n) (some e) names more h = ground (
  arith,
  any-append (λ protected. protected == e) names more,
  any-append (name_matches platform n) names more,
)
