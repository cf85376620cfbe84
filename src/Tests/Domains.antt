-- ===== src/Tests/Domains.antt =====
-- Base domains.
use kotoji.Prelude.{length, All, ◌≤◌, ◌≡◌, refl, ◌↔◌, none, some}
use kotoji.Domaincfg.{validate_base_domain, labels}
use kotoji.Domaincfg.Hostname.{validate_base_domain_iff}
use kotoji.Label.{IsLabel}
use kotoji.Tests.{plain}
use kotoji.Text.{has_suffix, contains, trim_space, bytes_eq, to_lower, codes, index_byte}

port_refused :
    validate_base_domain plain (codes "ko.to:8080")
    ≡ some "must be a bare hostname (no scheme, port, or path)"
unfolding validate_base_domain trim_space bytes_eq to_lower has_suffix contains index_byte
port_refused = refl

hyphen_refused :
    validate_base_domain plain (codes "ko-.to") ≡ some "label must not start or end with a hyphen"
unfolding validate_base_domain trim_space bytes_eq to_lower has_suffix contains index_byte
hyphen_refused = refl

domain_accepted : validate_base_domain plain (codes " a--b.ko.to ") ≡ none
unfolding validate_base_domain trim_space bytes_eq to_lower has_suffix contains index_byte
domain_accepted = refl

validate_base_domain_iff_example : (validate_base_domain plain (codes " ko.to ") ≡ none) ↔ (
    (length (trim_space plain (codes " ko.to ")) ≤ 253)
    × All IsLabel (labels (trim_space plain (codes " ko.to "))))
validate_base_domain_iff_example = validate_base_domain_iff plain (codes " ko.to ")
