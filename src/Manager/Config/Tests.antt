-- ===== src/Manager/Config/Tests.antt =====
-- A configuration of a node of three (pkg/manager/config.go).
use e2d.Manager.Config.Samples.{env, given, ready, validated}
use e2d.Manager.Config.{ca_key, short_name}
use e2d.Manager.Config.Ready.{IsReady, validate-IsReady}
use e2d.Prelude.{◌≡◌, refl, none, codes, panic}

validate-IsReady_example : IsReady ready
validate-IsReady_example = validate-IsReady env given ready validated

short : short_name (codes "ABCDEFG") ≡ codes "abcde"
unfolding short_name
short = refl

-- A CA key file that is not PEM ends the program.
not_pem : ca_key (record env { pem_decode = λ t. none }) (codes "ca.key") ≡ panic
unfolding ca_key
not_pem = refl
