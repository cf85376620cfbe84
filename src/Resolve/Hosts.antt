-- ===== src/Resolve/Hosts.antt =====
-- Host names that are already lower case, with and without a port.
use kotoji.Prelude.{All, take-length, ℕ, ◌<◌, ◌≡◌, refl, ap, ◌∙◌, ◌≢◌, [], ◌∷◌, ◌++◌, arith}
use kotoji.Text.{Bytes, Unicode, lower_byte, to_lower, lower_trim}
use kotoji.Text.Laws.{
  All-map, All-append, to_lower_id, trim_space_id, last_index_byte-none, last_index_byte-append,
}
use kotoji.Resolve.{strip_port, lower_strip_port}

-- A byte of a host name in its canonical form.
abbrev pub IsHostByte : ℕ → Type 0
IsHostByte c = (c < 128) × (lower_byte c ≡ c) × (32 < c) × (c ≢ b':') × (c ≢ b'[')

abbrev pub IsText : ℕ → Type 0
IsText c = (c < 128) × (lower_byte c ≡ c) × (32 < c)

pub lower_trim_id : (u : Unicode) (s : Bytes) → All IsText s → lower_trim u s ≡ s
unfolding lower_trim
lower_trim_id u s h =
    ap (to_lower u) (trim_space_id u s (All-map (λ c p. (p.0, p.2)) s h))
    ∙ to_lower_id u s (All-map (λ c p. (p.0, p.1)) s h)

IsHostByte-IsText : (s : Bytes) → All IsHostByte s → All IsText s
IsHostByte-IsText s h = All-map (λ c p. (p.0, p.1, p.2)) s h

strip_port_id : (s : Bytes) → All IsHostByte s → strip_port s ≡ s
unfolding strip_port
strip_port_id [] h = refl
strip_port_id (c ∷ s) h =
    ground (arith, last_index_byte-none (c ∷ s) b':' (All-map (λ c p. p.3) (c ∷ s) h))

pub lower_strip_port_id : (u : Unicode) (s : Bytes) → All IsHostByte s → lower_strip_port u s ≡ s
unfolding lower_strip_port
lower_strip_port_id u s h = rw (lower_trim_id u s (IsHostByte-IsText s h)) (strip_port_id s h)

strip_port-port :
    (c : ℕ) (s port : Bytes)
    → All IsHostByte (c ∷ s)
    → All IsHostByte port
    → strip_port (c ∷ s ++ b':' ∷ port) ≡ c ∷ s
unfolding strip_port
strip_port-port c s port h k = ground (
  arith,
  last_index_byte-append (c ∷ s) b':' port (All-map (λ c p. p.3) port k),
  take-length (c ∷ s) (b':' ∷ port),
)

-- A port changes nothing.
pub lower_strip_port-port :
    (u : Unicode) (c : ℕ) (s port : Bytes)
    → All IsHostByte (c ∷ s)
    → All IsHostByte port
    → lower_strip_port u (c ∷ s ++ b':' ∷ port) ≡ c ∷ s
unfolding lower_strip_port
lower_strip_port-port u c s port h k =
    let text : All IsText (c ∷ s ++ b':' ∷ port) =
      All-append IsText (c ∷ s) (b':' ∷ port) (IsHostByte-IsText (c ∷ s) h)
        (omega arith, IsHostByte-IsText port k) in
    rw (lower_trim_id u _ text) (strip_port-port c s port h k)
