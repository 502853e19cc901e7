-- ===== src/Manager/New/Tests.antt =====
-- A manager of a node of three (New of pkg/manager/manager.go).
use e2d.Manager.Config.{Config}
use e2d.Manager.Config.Samples.{env, given, ready, validated}
use e2d.Manager.Peers.{Peer, validate_peers}
use e2d.Manager.Server.Settings.{MadeDir, made, start_settings, etcd_settings}
use e2d.Manager.New.{IsStarted, new_manager, setup, new_manager-start_settings}
use e2d.Prelude.{◌≡◌, refl, ap, false, List, [], ◌∷◌, codes, str_eq, Result, ok, ◌>>=◌}

made_up : new_manager env given false ≡ ok (setup ready false)
unfolding new_manager
made_up = ap (λ (r : Result Config). r >>= (λ cfg. ok (setup cfg false))) validated

new_manager-start_settings_example : IsStarted (setup ready false)
new_manager-start_settings_example =
    new_manager-start_settings env given false (setup ready false) made_up

abbrev three : List Peer
three =
    record { name = codes "a"; url = codes "http://10.1.1.1:2380" }
    ∷ record { name = codes "b"; url = codes "http://10.1.1.2:2380" }
    ∷ record { name = codes "c"; url = codes "http://10.1.1.3:2380" }
    ∷ []

-- Three peers are enough, and two are not.
accepted :
    start_settings (setup ready false).server_config (codes "new") made three
    ≡ ok (etcd_settings (setup ready false).server_config (codes "new") three)
unfolding setup start_settings validate_peers str_eq e2d.Manager.Server.Settings.required_peers
accepted = refl
