-- ===== src/Version.antt =====
-- internal/version/version.go: the names of the protocols, as code points.
pub mod Names
mod Tests
use f2p.Prelude.{ℕ, Bool, true, false, not, List, [], ◌∷◌, ◌++◌, String, if◌then◌else◌}
use f2p.Prelude.Text.{codes, has_prefix, has_suffix, trim_right}

abbrev pub get_protocol : String
get_protocol = "f2p-forward/0.0.2"

abbrev pub slash : ℕ
slash = b'/'

unfoldable pub normalize_base : List ℕ → List ℕ
unfolding has_prefix trim_right
normalize_base [] = slash ∷ codes get_protocol
normalize_base (c ∷ base) =
    let rooted =
      if not (has_prefix (c ∷ base) (slash ∷ [])) then slash ∷ (c ∷ base) else c ∷ base in
    trim_right slash rooted

unfoldable pub control_protocol : List ℕ → List ℕ
unfolding normalize_base
control_protocol base = normalize_base base ++ codes "/control"

unfoldable pub data_protocol : List ℕ → List ℕ
unfolding normalize_base
data_protocol base = normalize_base base ++ codes "/data"

unfoldable pub data_protocol_zstd : List ℕ → List ℕ
unfolding normalize_base
data_protocol_zstd base = normalize_base base ++ codes "/data+zstd"

unfoldable pub signaling_protocol : List ℕ → List ℕ
unfolding normalize_base
signaling_protocol base = normalize_base base ++ codes "/holepunch"

-- How handleDataStream of internal/server/handlers_data.go tells the compressed protocol.
unfoldable pub is_zstd : List ℕ → Bool
unfolding has_suffix
is_zstd proto_id = has_suffix proto_id (codes "/data+zstd")
