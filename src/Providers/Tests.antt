-- ===== src/Providers/Tests.antt =====
-- A group of three instances, one of which has an address that is not routable.
use e2d.Netutil.{Net, is_routable_ipv4}
use e2d.Providers.Addrs.{IsOther}
use e2d.Providers.Aws.{
  Services, get_auto_scaling_group_addresses, get_auto_scaling_group_addresses_iff, get_group_name,
  group_instances, get_instance_ip_address,
}
use e2d.Providers.Roles.{without_first}
use e2d.Prelude.{
  ◌≡◌, refl, ◌↔◌, true, false, List, [], ◌∷◌, if◌then◌else◌, In, Text, codes, str_eq, ok,
}

abbrev net : Net
net = record {
  interface_addrs = ok [];
  is_unspecified = λ s. str_eq s (codes "0.0.0.0");
  is_loopback = λ s. str_eq s (codes "127.0.0.1");
  is_ipv4 = λ s. true;
}

abbrev services : Services
services = record {
  identity = ok (codes "i-1");
  auto_scaling_instances = λ i. ok (codes "asg" ∷ []);
  reservations = λ i.
      ok
        ([] ∷ ((if str_eq i (codes "i-2") then codes "10.0.0.2" else codes "127.0.0.1") ∷ []) ∷ []);
  group_pages = λ name. ok (
      record { entries = (codes "i-1" ∷ codes "i-2" ∷ []) ∷ []; is_last = false }
      ∷ record { entries = (codes "i-3" ∷ []) ∷ []; is_last = true }
      ∷ []);
  tag_pages = λ filters. ok [];
}

found : get_auto_scaling_group_addresses net services ≡ ok (codes "10.0.0.2" ∷ [])
unfolding get_auto_scaling_group_addresses get_group_name group_instances
    e2d.Providers.Aws.addrs_of_others e2d.Providers.Addrs.other_addrs e2d.Providers.Aws.all_entries
    str_eq get_instance_ip_address is_routable_ipv4
found = refl

get_auto_scaling_group_addresses_iff_example :
    (self : Text) × (name : Text) × (instances : List Text) × (services.identity ≡ ok self)
    × (get_group_name net services self ≡ ok name)
    × (group_instances net services name ≡ ok instances)
    × (In (codes "10.0.0.2") (codes "10.0.0.2" ∷ [])
        ↔ IsOther
            (is_routable_ipv4 net)
            (λ i. str_eq i self)
            (get_instance_ip_address net services)
            instances
            (codes "10.0.0.2"))
get_auto_scaling_group_addresses_iff_example =
    get_auto_scaling_group_addresses_iff net services (codes "10.0.0.2" ∷ []) (codes "10.0.0.2")
      found

trimmed : without_first (codes "instance-profile/") (codes "instance-profile/web") ≡ codes "web"
unfolding without_first e2d.Prelude.has_prefix
trimmed = refl
