-- ===== src/Tests/ElTorito.antt =====
-- Runs of the boot catalogue parser.
use lamfold.Prelude.{ℕ, Bytes, [], ◌∷◌, some, ◌≡◌, ◌==◌, if◌then◌else◌, refl, arith}
use lamfold.ElTorito.{parse_entry, parse_catalog, platform_uefi}
use lamfold.ElTorito.Sections.{Section, Sections, first_uefi}
use lamfold.ElTorito.Catalog.{image_of, parse_catalog-image_of}

abbrev zeros20 : Bytes
zeros20 = 0 ∷ 0 ∷ 0 ∷ 0 ∷ 0 ∷ 0 ∷ 0 ∷ 0 ∷ 0 ∷ 0 ∷ 0 ∷ 0 ∷ 0 ∷ 0 ∷ 0 ∷ 0 ∷ 0 ∷ 0 ∷ 0 ∷ 0 ∷ []

abbrev zeros28 : Bytes
zeros28 = 0 ∷ 0 ∷ 0 ∷ 0 ∷ 0 ∷ 0 ∷ 0 ∷ 0 ∷ zeros20

-- An entry with four sectors at the block `lba`.
abbrev entry : ℕ → ℕ → Bytes
entry indicator lba = indicator ∷ 0 ∷ 0 ∷ 0 ∷ 0 ∷ 0 ∷ 4 ∷ 0 ∷ lba ∷ 0 ∷ 0 ∷ 0 ∷ zeros20

abbrev bios : Section
bios = record { platform = 0; id = zeros28; entries = entry 0x88 20 ∷ [] }

abbrev uefi : Section
uefi = record { platform = 0xef; id = zeros28; entries = entry 0 33 ∷ entry 0x88 34 ∷ [] }

all-Sections : Sections (bios ∷ uefi ∷ [])
all-Sections = ((refl, omega arith, (refl, tt)), ((refl, omega arith, (refl, (refl, tt))), tt))

catalog_parses :
    parse_catalog (image_of 0 zeros28 (entry 0x88 20) (bios ∷ uefi ∷ []) [])
    ≡ some (record { lba = 34; sectors = 4 })
unfolding parse_catalog image_of
catalog_parses = refl

parse_catalog-image_of_example :
    parse_catalog (image_of 0 zeros28 (entry 0x88 20) (bios ∷ uefi ∷ []) (1 ∷ []))
    ≡ (if 0 == platform_uefi then parse_entry (entry 0x88 20) else first_uefi (bios ∷ uefi ∷ []))
parse_catalog-image_of_example =
    parse_catalog-image_of 0 zeros28 (entry 0x88 20) bios (uefi ∷ []) (1 ∷ []) refl refl
      all-Sections
