-- ===== src/Texts/Tests.antt =====
-- Concrete texts for the bounds: one that fits, and one whose byte 1024 lies inside a character.
use Prim.Native.String.{◌++◌ as ◌+++◌, len}
use text.Mathlib.Text.{is_char_boundary}
use lean_rs.Common.{ℕ, zero, suc, String, ◌≡◌, ◌↔◌, ◌<◌, refl, true, false}
use lean_rs.Texts.Bound.{
  error_message_limit, bound_message, bound_rendered_info, bound_bootstrap_text, bootstrap_limit,
}
use lean_rs.Texts.Cut.{IsBounded, bound_message-IsBounded, bound_rendered_info-IsBounded}
use lean_rs.Texts.Bootstrap.{Bounded, bound_bootstrap_text-Bounded}

abbrev doubled : ℕ → String → String
doubled zero s = s
doubled (suc n) s = doubled n (s +++ s)

-- A letter and 512 two-byte characters: 1025 bytes.
abbrev straddling : String
straddling = "a" +++ doubled 9 "é"

straddling_is_long : len straddling ≡ 1025
straddling_is_long = refl

straddling_has_no_boundary : is_char_boundary straddling bootstrap_limit ≡ false
straddling_has_no_boundary = refl

rendered_by_bytes : (bound_rendered_info "aéé" 4).value ≡ "aé"
unfolding bound_rendered_info
rendered_by_bytes = refl

bound_bootstrap_text-Bounded_example :
    Bounded straddling (λ rounds. bound_bootstrap_text rounds straddling)
bound_bootstrap_text-Bounded_example = bound_bootstrap_text-Bounded straddling

bound_message-IsBounded_example : IsBounded error_message_limit "aéé" (bound_message "aéé")
bound_message-IsBounded_example = bound_message-IsBounded "aéé"

bound_rendered_info-IsBounded_example :
    IsBounded 4 "aéé" (bound_rendered_info "aéé" 4).value
    × (((bound_rendered_info "aéé" 4).truncated ≡ true) ↔ (4 < len "aéé"))
bound_rendered_info-IsBounded_example = bound_rendered_info-IsBounded "aéé" 4
