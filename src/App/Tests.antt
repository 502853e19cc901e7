-- ===== src/App/Tests.antt =====
-- Options of `run` (cmd/e2d/app/run.go).
use e2d.Prelude.Decimal.{pos}
use e2d.Netutil.{split_first}
use e2d.App.{split_by, parse_peer_discovery, append_hosts}
use e2d.App.Env.{
  FieldValue, string_value, uint_value, bool_value, Readers, EnvField, set_value, set_envs,
}
use e2d.Prelude.{
  ◌≡◌, refl, false, ◌||◌, Option, none, some, [], ◌∷◌, if◌then◌else◌, Text, codes, str_eq, eof, ok,
  err,
}

tags : parse_peer_discovery (codes "ec2-tags:a=1,b") ≡ (
  codes "ec2-tags",
  record { key = codes "a"; value = codes "1" } ∷ record { key = codes "b"; value = [] } ∷ [],
)
unfolding parse_peer_discovery split_first split_by
tags = refl

-- A host that is there already is added again.
twice :
    append_hosts (codes "127.0.0.1" ∷ []) (codes "127.0.0.1" ∷ [])
    ≡ codes "127.0.0.1" ∷ codes "127.0.0.1" ∷ []
unfolding append_hosts str_eq
twice = refl

abbrev readers : Readers
readers = record {
  parse_int = λ s bits. ok (pos 3);
  parse_uint = λ s bits. ok 3;
  parse_bool = λ s. err eof;
  parse_duration = λ s. ok (pos 3);
}

abbrev env : Text → Option Text
env name =
    if str_eq name (codes "E2D_NAME") || str_eq name (codes "E2D_FLAG")
    then some (codes "n")
    else none

abbrev named : FieldValue → EnvField
named v = record { tag = some (codes "e2d_name"); value = v }

abbrev flag : EnvField
flag = record { tag = some (codes "e2d_flag"); value = bool_value false }

-- The field after one that cannot be set is not set.
from_env :
    set_envs readers env (named (string_value []) ∷ flag ∷ named (uint_value 8 0) ∷ [])
    ≡ (named (string_value (codes "n")) ∷ flag ∷ named (uint_value 8 0) ∷ [], some eof)
unfolding set_envs set_value str_eq
from_env = refl
