-- ===== src/Text/Regex.antt =====
-- The part of Go's `regexp` syntax that the driver's patterns use, matched by derivatives. The
-- patterns are anchored at both ends, so a match is a match of the whole text.
use beegfs_csi_driver.Prelude.{
  ℕ, zero, suc, String, Bool, true, false, ◌&&◌, ◌||◌, List, [], ◌∷◌, leb, if◌then◌else◌,
}
use beegfs_csi_driver.Text.Strings.{codes}

pub data Regex : Type 0 where
  never empty : Regex
  one : (ℕ → Bool) → Regex
  seq alt : Regex → Regex → Regex
  star : Regex → Regex

-- x?, x+ and x{0,n}
abbrev pub opt : Regex → Regex
opt r = alt empty r

abbrev pub plus : Regex → Regex
plus r = seq r (star r)

unfoldable pub up_to : ℕ → Regex → Regex
up_to zero r = empty
up_to (suc n) r = alt empty (seq r (up_to n r))

nullable : Regex → Bool
nullable never = false
nullable empty = true
nullable (one c) = false
nullable (seq r s) = nullable r && nullable s
nullable (alt r s) = nullable r || nullable s
nullable (star r) = true

-- `seq` and `alt` that drop what cannot match.
seq' : Regex → Regex → Regex
seq' never s = never
seq' empty s = s
seq' r s = seq r s

alt' : Regex → Regex → Regex
alt' never s = s
alt' r never = r
alt' r s = alt r s

-- What has to match behind the character `c`.
derive : Regex → ℕ → Regex
unfolding nullable seq' alt'
derive never c = never
derive empty c = never
derive (one f) c = if f c then empty else never
derive (seq r s) c =
    let behind = derive s c in alt' (seq' (derive r c) s) (if nullable r then behind else never)
derive (alt r s) c = alt' (derive r c) (derive s c)
derive (star r) c = seq' (derive r c) (star r)

matches_codes : Regex → List ℕ → Bool
unfolding derive
matches_codes r [] = nullable r
matches_codes r (c ∷ s) = matches_codes (derive r c) s

unfoldable pub matches : Regex → String → Bool
unfolding matches_codes
matches r s = matches_codes r (codes s)

abbrev pub is_lower : ℕ → Bool
is_lower c = leb b'a' c && leb c b'z'

abbrev pub is_upper : ℕ → Bool
is_upper c = leb b'A' c && leb c b'Z'

abbrev pub is_digit : ℕ → Bool
is_digit c = leb b'0' c && leb c b'9'
