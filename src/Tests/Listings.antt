-- ===== src/Tests/Listings.antt =====
-- internal/result/git.go on a listing.
use mac_agent.Base.{◌≡◌, refl, none, some, List, [], ◌∷◌, map, codes, arith, All}
use mac_agent.Git.{parse_porcelain_z, sort_texts, is_renamed}
use mac_agent.Git.Listing.{Change, IsChange, listing, parse_porcelain_z-listing}
use mac_agent.Source.{has_byte}

-- `R  b.go` from `old`, and `?? a.go`.
abbrev changes : List Change
changes =
    record { index = 82; tree = 32; path = codes "b.go"; origin = some (codes "old") }
    ∷ record { index = 63; tree = 63; path = codes "a.go"; origin = none }
    ∷ []

are_changes : All IsChange changes
unfolding has_byte is_renamed
are_changes = ((refl, omega arith, refl, refl), ((refl, omega arith, tt, refl), tt))

parse_porcelain_z-listing_example :
    parse_porcelain_z (listing changes) ≡ sort_texts (map (λ c. c.path) changes)
parse_porcelain_z-listing_example = parse_porcelain_z-listing changes are_changes
