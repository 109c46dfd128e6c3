-- ===== src/Zip/Settings/Tests.antt =====
-- Settings at concrete values.
use arkive.Common.{◌-◌, ◌≤◌, ◌<◌, ◌≡◌, ◌↔◌, ◌⊎◌, none, arith}
use arkive.Common.Words.{u64_mod, sign_bit}
use arkive.Zip.Settings.{FlateSettings, validate}
use arkive.Zip.Settings.Valid.{validate_iff}

abbrev refused : FlateSettings
refused = record { level = 6; block_size = 16384; blocks = 4 }

validate_iff_example : (validate refused ≡ none) ↔ (
    ((6 ≤ 9) ⊎ (u64_mod - 2 ≤ 6))
    × ((1 ≤ 4) × (4 < sign_bit))
    × ((16384 < 16384) × (16384 < sign_bit)))
validate_iff_example = validate_iff refused (omega arith) (omega arith) (omega arith)
