-- ===== src/Text/Tests.antt =====
-- The text functions at inputs from the documentation of Go's packages.
use beegfs_csi_driver.Prelude.{◌≡◌, refl, true, false, none, some, [], ◌∷◌}
use beegfs_csi_driver.Text.Strings.{
  contains, contains_lower, has_prefix, replace_first, replace_char, split_n2, join,
}
use beegfs_csi_driver.Text.Numbers.{parse_uint, atoi}
use beegfs_csi_driver.Text.Path.{clean, path_join, dir, base}

search_texts :
    (contains "a/b" "/b" ≡ true)
    × (contains "ab" "ba" ≡ false)
    × (contains_lower "CfgFile=x" "cfgfile" ≡ true)
    × (has_prefix "context=a" "context=" ≡ true)
unfolding contains contains_lower has_prefix
search_texts = (refl, refl, refl, refl)

replacements :
    (replace_first "beegfs://h/beegfs://" "beegfs://" "" ≡ "h/beegfs://")
    × (replace_char b'_' "__" "a_b_" ≡ "a__b__")
unfolding replace_first replace_char
replacements = (refl, refl)

split_join :
    (split_n2 "img:tag:x" ":" ≡ ("img", some "tag:x"))
    × (split_n2 "img" ":" ≡ ("img", none))
    × (join ("a" ∷ "b" ∷ []) "," ≡ "a,b")
unfolding split_n2 join
split_join = (refl, refl, refl)

numbers :
    (parse_uint "0755" 8 12 ≡ some 493)
    × (parse_uint "7777" 8 12 ≡ some 4095)
    × (parse_uint "10000" 8 12 ≡ none)
    × (parse_uint "" 10 16 ≡ none)
    × (parse_uint "-1" 10 16 ≡ none)
    × (atoi "-12" ≡ some (true, 12))
    × (atoi "+7" ≡ some (false, 7))
unfolding parse_uint atoi
numbers = (refl, refl, refl, refl, refl, refl, refl)

cleaned :
    (clean "/a//b/../c/." ≡ "/a/c")
    × (clean "../a/.." ≡ "..")
    × (clean "" ≡ ".")
    × (clean "/../a/" ≡ "/a")
    × (path_join ("a" ∷ "" ∷ "/b" ∷ []) ≡ "a/b")
    × (path_join ("" ∷ []) ≡ "")
    × (dir "/a/b" ≡ "/a")
    × (dir "/a" ≡ "/")
    × (dir "a" ≡ ".")
    × (base "/a/b/" ≡ "b")
    × (base "//" ≡ "/")
    × (base "" ≡ ".")
unfolding clean path_join dir base
cleaned = (refl, refl, refl, refl, refl, refl, refl, refl, refl, refl, refl, refl)
