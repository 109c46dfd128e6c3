-- ===== src/Zip/Settings/Valid.antt =====
-- Which settings are accepted, and that the writer never has others (zip/writer.go).
use arkive.Common.{
  ◌-◌, ◌≤◌, ◌<◌, ◌≡◌, refl, ap, ◌∙◌, ◌↔◌, ◌⊎◌, inl, inr, none, List, [], ◌∷◌, arith, Option-cases,
}
use arkive.Common.Words.{u64_mod, sign_bit, IsWord}
use arkive.Zip.Settings.{
  FlateSettings, default_compression_settings, validate, keep_valid, set_compression_settings,
}

-- Settings of int64 fields are accepted exactly if the level lies from -2 to 9, so that -2 and -1 are
-- accepted besides the levels from flate.NoCompression to flate.BestCompression that the field's
-- comment names, if there is at least one block, and if a block is larger than 16 KiB.
pub validate_iff :
    (fs : FlateSettings)
    → IsWord fs.level
    → IsWord fs.block_size
    → IsWord fs.blocks
    → (validate fs ≡ none) ↔ (
        ((fs.level ≤ 9) ⊎ (u64_mod - 2 ≤ fs.level))
        × ((1 ≤ fs.blocks) × (fs.blocks < sign_bit))
        × ((16384 < fs.block_size) × (fs.block_size < sign_bit)))
unfolding validate
validate_iff fs hl hb hn = (λ e. ground arith, λ p. ground arith)

-- The settings of a writer after calls of `SetCompressionSettings`, whatever they answer.
abbrev after_calls : FlateSettings → List FlateSettings → FlateSettings
after_calls fs [] = fs
after_calls fs (c ∷ calls) = after_calls (set_compression_settings fs c).1 calls

set_compression_settings-valid :
    (old fs : FlateSettings)
    → validate old ≡ none
    → validate (set_compression_settings old fs).1 ≡ none
unfolding set_compression_settings keep_valid
set_compression_settings-valid old fs h = elim (Option-cases (validate fs)) [
  | inl k ↦ ap (λ o. validate (keep_valid o old fs)) k ∙ k
  | inr (e, k) ↦ ap (λ o. validate (keep_valid o old fs)) k ∙ h
]

after_calls-valid :
    (calls : List FlateSettings) (fs : FlateSettings)
    → validate fs ≡ none
    → validate (after_calls fs calls) ≡ none
after_calls-valid [] fs h = h
after_calls-valid (c ∷ calls) fs h =
    after_calls-valid calls _ (set_compression_settings-valid fs c h)

-- A new writer's settings are valid, and stay valid under any calls of `SetCompressionSettings`.
after_calls-default :
    (calls : List FlateSettings) → validate (after_calls default_compression_settings calls) ≡ none
after_calls-default calls =
    after_calls-valid calls default_compression_settings (unfold validate in refl)
