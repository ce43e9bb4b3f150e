-- ===== src/Config.antt =====
-- The part of src/base/bano_base.c that applies the structures of a file. A callback gives back
-- the state that it writes to, and `true` where it sets `err`. `strtoul` is a parameter, as in
-- Strings.
pub mod Pairs
pub mod Nodls
pub mod Bounds
pub mod Formats
pub mod Stops
pub mod Station
pub mod Nodes
use bano.Base.{ℕ, Bool, true, false, List, [], ◌∷◌, if◌then◌else◌}

-- `bano_parser_foreach_pair` and `bano_parser_foreach_struct`: the loop ends where the callback
-- returns an error.
unfoldable pub apply_each : {S A : Type 0} → (S → A → S × Bool) → S → List A → S × Bool
apply_each f s [] = (s, false)
apply_each {S} f s (x ∷ xs) =
    let r = f s x in
    let rest = apply_each f r.0 xs in
    let stopped : S × Bool = (r.0, true) in if r.1 then stopped else rest
