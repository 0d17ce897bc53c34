-- ===== src/Version/Tests.antt =====
-- The protocols' names at concrete bases.
use f2p.Prelude.{◌≡◌, refl, String}
use f2p.Prelude.Text.{codes}
use f2p.Version.{normalize_base, control_protocol, data_protocol}

abbrev base : String
base = "my/tunnel//"

data_name : data_protocol (codes base) ≡ codes "/my/tunnel/data"
unfolding data_protocol normalize_base
data_name = refl

only_slashes : control_protocol (codes "//") ≡ codes "/control"
unfolding control_protocol normalize_base
only_slashes = refl
