-- ===== src/Marketplace/Versions.antt =====
-- core/marketplace/registry.go: splitVersion and versionGE. The numbers stay below 2^63.
use Prim.Native.Char.{code}
use hisnos_secure_workstatio.Common.{
  ℕ, zero, suc, ◌+◌, ◌-◌, ◌*◌, ◌≡◌, refl, Bool, true, false, ◌&&◌, ◌||◌, List, [], ◌∷◌, String, ltb,
  leb, ◌==◌, arith, if◌then◌else◌,
}

-- The code points of a text; `String` has its own `[]` and `∷`.
abbrev pub codes : String → List ℕ
codes String.[] = []
codes (String.◌∷◌ c s) = code c ∷ codes s

-- The part before the first dot, and the rest after it.
abbrev pub put_front : ℕ → List (List ℕ) → List (List ℕ)
put_front c [] = (c ∷ []) ∷ []
put_front c (p ∷ ps) = (c ∷ p) ∷ ps

-- `strings.SplitN(v, ".", n + 1)`: after `n` cuts the rest is one part, dots and all.
unfoldable pub split_n : ℕ → List ℕ → List (List ℕ)
split_n n [] = [] ∷ []
split_n zero (c ∷ cs) = put_front c (split_n zero cs)
split_n (suc n) (c ∷ cs) =
    let cut = split_n n cs in
    let same = split_n (suc n) cs in if c == b'.' then [] ∷ cut else put_front c same

-- Characters that are no digits are passed over.
unfoldable pub read_number : ℕ → List ℕ → ℕ
read_number n [] = n
read_number n (c ∷ cs) =
    let more = read_number (n * 10 + (c - b'0')) cs in
    let passed = read_number n cs in if leb b'0' c && leb c b'9' then more else passed

-- `[3]int`
pub record Version : Type 0 where
  pub major : ℕ
  pub minor : ℕ
  pub patch : ℕ

unfoldable pub version_of_parts : List (List ℕ) → Version
unfolding read_number
version_of_parts [] = record { major = 0; minor = 0; patch = 0 }
version_of_parts (a ∷ []) = record { major = read_number 0 a; minor = 0; patch = 0 }
version_of_parts (a ∷ b ∷ []) = record {
  major = read_number 0 a;
  minor = read_number 0 b;
  patch = 0;
}
version_of_parts (a ∷ b ∷ c ∷ _) = record {
  major = read_number 0 a;
  minor = read_number 0 b;
  patch = read_number 0 c;
}

unfoldable pub split_version : String → Version
unfolding split_n version_of_parts
split_version v = version_of_parts (split_n 2 (codes v))

-- The loop over the pairs of numbers.
unfoldable pub ge_loop : List (ℕ × ℕ) → Bool
ge_loop [] = true
ge_loop ((x, y) ∷ rest) =
    let more = ge_loop rest in if ltb y x then true else if ltb x y then false else more

abbrev pub pairs : Version → Version → List (ℕ × ℕ)
pairs a b = (a.major, b.major) ∷ (a.minor, b.minor) ∷ (a.patch, b.patch) ∷ []

unfoldable pub version_ge : String → String → Bool
unfolding split_version ge_loop
version_ge a b = ge_loop (pairs (split_version a) (split_version b))

ge_loop_total : (a b : Version) → (ge_loop (pairs a b) || ge_loop (pairs b a)) ≡ true
unfolding ge_loop
ge_loop_total a b = ground arith

ge_loop_trans :
    (a b c : Version)
    → ge_loop (pairs a b) ≡ true
    → ge_loop (pairs b c) ≡ true
    → ge_loop (pairs a c) ≡ true
unfolding ge_loop
ge_loop_trans a b c x y = ground arith

-- Any two versions compare in one of the two directions, and the comparison is transitive: versions
-- are totally preordered, so what runs on a version also runs on a later one.
pub version_ge-ordered :
    (a b c : String)
    → ((version_ge a b || version_ge b a) ≡ true)
      × (version_ge a b ≡ true → version_ge b c ≡ true → version_ge a c ≡ true)
unfolding version_ge
version_ge-ordered a b c = (
  ge_loop_total (split_version a) (split_version b),
  ge_loop_trans (split_version a) (split_version b) (split_version c),
)

-- Three dots: the third number swallows the fourth. A suffix counts as digits.
four_parts : split_version "1.0.0.5" ≡ record { major = 1; minor = 0; patch = 5 }
unfolding split_version split_n read_number
four_parts = refl

candidate_later : version_ge "1.0.0" "1.0.0-rc1" ≡ false
unfolding version_ge split_version split_n read_number ge_loop
candidate_later = refl
