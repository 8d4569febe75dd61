-- ===== src/Store/Names.antt =====
-- MapManager::isValidMapName.
use Prim.Native.Char.{code}
use slam_system_manager.Base.{
  ℕ, zero, suc, ◌≤◌, ◌≡◌, refl, ◌↔◌, ◌==◌, leb, Bool, true, false, ◌&&◌, ◌||◌, String, arith,
}

-- [A-Za-z0-9]
unfoldable pub is_alphanumeric : ℕ → Bool
is_alphanumeric c = leb b'A' c && leb c b'Z' || leb b'a' c && leb c b'z' || leb b'0' c && leb c b'9'

-- [A-Za-z0-9_-]
unfoldable pub is_map_char : ℕ → Bool
is_map_char c = is_alphanumeric c || c == b'_' || c == b'-'

-- [A-Za-z0-9_-]{0,n}
unfoldable pub up_to : ℕ → String → Bool
up_to n String.[] = true
up_to zero (String.◌∷◌ c s) = false
up_to (suc n) (String.◌∷◌ c s) = is_map_char (code c) && up_to n s

unfoldable pub is_valid_map_name : String → Bool
is_valid_map_name String.[] = false
is_valid_map_name (String.◌∷◌ c s) = is_alphanumeric (code c) && up_to 63 s

-- A description of the names that does not go by the pattern.
abbrev pub size : String → ℕ
size String.[] = 0
size (String.◌∷◌ c s) = suc (size s)

abbrev pub EachChar : (ℕ → Type 0) → String → Type 0
EachChar P String.[] = Unit {0}
EachChar P (String.◌∷◌ c s) = P (code c) × EachChar P s

abbrev pub Starts : (ℕ → Type 0) → String → Type 0
Starts P String.[] = ⊥
Starts P (String.◌∷◌ c s) = P (code c)

up_to_iff :
    (n : ℕ) (s : String)
    → (up_to n s ≡ true) ↔ (EachChar (λ c. is_map_char c ≡ true) s × (size s ≤ n))
unfolding up_to
up_to_iff n String.[] = ((λ _. (tt, omega arith)), (λ _. refl))
up_to_iff zero (String.◌∷◌ c s) = ((λ h. cc), (λ (h, k). absurd (omega arith)))
up_to_iff (suc n) (String.◌∷◌ c s) = (
  (λ h. let (p, q) = (up_to_iff n s).0 (ground arith) in ((ground arith, p), omega arith)),
  (λ ((p, q), k). ground (arith, (up_to_iff n s).1 (q, omega arith))),
)

-- A name is valid exactly if it has 1 to 64 characters, all of them ASCII letters, digits, '_' or '-',
-- the first a letter or a digit.
pub is_valid_map_name_iff :
    (s : String)
    → (is_valid_map_name s ≡ true)
      ↔ (1 ≤ size s)
        × (size s ≤ 64)
        × EachChar (λ c. is_map_char c ≡ true) s
        × Starts (λ c. is_alphanumeric c ≡ true) s
unfolding is_valid_map_name is_map_char
is_valid_map_name_iff String.[] = ((λ h. cc), (λ (_, _, _, none). absurd none))
is_valid_map_name_iff (String.◌∷◌ c s) = (
  (λ h.
      let (p, q) = (up_to_iff 63 s).0 (ground arith) in
      (omega arith, omega arith, (ground arith, p), ground arith)),
  (λ (_, k, (_, p), q). ground (arith, (up_to_iff 63 s).1 (p, omega arith))),
)
