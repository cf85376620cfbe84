-- ===== src/Tests.antt =====
-- Concrete inputs for the theorems of the library.
pub mod Routing
pub mod Certificates
pub mod SignIn
pub mod Traffic
pub mod Membership
pub mod Paths
pub mod Domains
pub mod Repos
pub mod Writes
pub mod Handles
pub mod Reapers
pub mod Uploads
pub mod Previews
pub mod Roles
pub mod Serving
use kotoji.Text.{codes, Bytes, to_lower, Unicode}

-- A table of Unicode that changes nothing.
abbrev pub plain : Unicode
plain = record { to_lower = λ s. s; trim_func = λ s. s; trim_right_func = λ s. s }

abbrev pub blog : Bytes
blog = codes "blog"

abbrev pub draft : Bytes
draft = codes "draft"
