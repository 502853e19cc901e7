-- ===== src/Providers/Aws.antt =====
-- pkg/provider/aws/client.go and pkg/discovery/discovery_aws.go: the other nodes of an auto scaling
-- group, and those that have the given tags.
use e2d.App.{KeyValue}
use e2d.Netutil.{Net, is_routable_ipv4}
use e2d.Providers.Addrs.{other_addrs, other_addrs_iff, IsOther}
use e2d.Prelude.{
  ◌≡◌, ◌↔◌, Bool, Option, none, some, List, [], ◌∷◌, ◌++◌, map, select, if◌then◌else◌, In, Text,
  codes, str_eq, Error, other, Result, ok, err, bind_ok, ◌>>=◌, Assoc, insert,
}

-- ec2.Filter
pub record Filter : Type 0 where
  pub name : Text
  pub values : List Text

-- A tag that EC2 lists: the type and the id of the resource that has it.
pub record Tagged : Type 0 where
  pub resource_type : Text
  pub resource_id : Text

-- A page of an answer, and whether it is the last one.
pub record Page (A : Type 0) : Type 0 where
  pub entries : List A
  pub is_last : Bool

-- What the services answer. A pointer to a string that is nil reads as the empty string.
pub record Services : Type 0 where
  -- the id of this instance
  pub identity : Result Text
  -- the names of the groups of an instance
  pub auto_scaling_instances : Text → Result (List Text)
  -- the private addresses of an instance, by reservation
  pub reservations : Text → Result (List (List Text))
  -- the instances of the groups of a name, by page and group
  pub group_pages : Text → Result (List (Page (List Text)))
  pub tag_pages : List Filter → Result (List (Page Tagged))

-- The first entry, which ends the loop over them.
first_group : List Text → Result Text
first_group [] = err (other (codes "cannot find autoscaling group for instance"))
first_group (name ∷ names) = ok name

first_address : List (List Text) → Result Text
first_address [] = err (other (codes "instance not found"))
first_address ([] ∷ rest) = first_address rest
first_address ((addr ∷ addrs) ∷ rest) = ok addr

-- What the pages hold up to the last one, at which the callback asks for no more.
unfoldable pub all_entries : {A : Type 0} → List (Page A) → List A
all_entries [] = []
all_entries (page ∷ pages) =
    let rest = all_entries pages in if page.is_last then page.entries else (page.entries ++ rest)

concat : List (List Text) → List Text
concat [] = []
concat (xs ∷ rest) = xs ++ concat rest

unfoldable pub resource_type_instance : Text
resource_type_instance = codes "instance"

-- The filters for tags with a name and a value.
unfoldable pub tag_filters : Assoc Text → List Filter
tag_filters [] = []
tag_filters ((k, v) ∷ kvs) = record { name = codes "tag:" ++ k; values = v ∷ [] } ∷ tag_filters kvs

instance_ids : List Tagged → List Text
unfolding resource_type_instance
instance_ids tags =
    map (λ (t : Tagged). t.resource_id)
      (select (λ t. str_eq t.resource_type resource_type_instance) tags)

module _ (net : Net) (services : Services) where
  unfoldable pub get_group_name : Text → Result Text
  unfolding first_group
  get_group_name instance_id = do
    names ← services.auto_scaling_instances instance_id
    first_group names

  unfoldable pub get_instance_ip_address : Text → Result Text
  unfolding first_address
  get_instance_ip_address instance_id = do rs ← services.reservations instance_id; first_address rs

  -- The loop over the instances, which both functions have.
  unfoldable pub addrs_of_others : Text → List Text → Result (List Text)
  addrs_of_others self instances =
      other_addrs (is_routable_ipv4 net) (λ i. str_eq i self) get_instance_ip_address instances

  unfoldable pub group_instances : Text → Result (List Text)
  unfolding concat
  group_instances name = do pages ← services.group_pages name; ok (concat (all_entries pages))

  unfoldable pub tagged_instances : Assoc Text → Result (List Text)
  unfolding instance_ids
  tagged_instances kvs = do
    pages ← services.tag_pages (tag_filters kvs)
    ok (instance_ids (all_entries pages))

  -- `GetAutoScalingGroupAddresses`
  unfoldable pub get_auto_scaling_group_addresses : Result (List Text)
  get_auto_scaling_group_addresses = do
    self ← services.identity
    name ← get_group_name self
    instances ← group_instances name
    addrs_of_others self instances

  -- `GetAddressesByTag`
  unfoldable pub get_addresses_by_tag : Assoc Text → Result (List Text)
  get_addresses_by_tag kvs = do
    self ← services.identity
    instances ← tagged_instances kvs
    addrs_of_others self instances

  -- The addresses of an auto scaling group are exactly the routable ones of its instances but this
  -- one.
  pub get_auto_scaling_group_addresses_iff :
      (addrs : List Text) (a : Text)
      → get_auto_scaling_group_addresses ≡ ok addrs
      → (self : Text) × (name : Text) × (instances : List Text) × (services.identity ≡ ok self)
        × (get_group_name self ≡ ok name)
        × (group_instances name ≡ ok instances)
        × (In a addrs
            ↔ IsOther
                (is_routable_ipv4 net)
                (λ i. str_eq i self)
                get_instance_ip_address
                instances
                a)
  unfolding get_auto_scaling_group_addresses addrs_of_others
  get_auto_scaling_group_addresses_iff addrs a h =
      let (self, h1, k1) = bind_ok services.identity _ addrs h in
      let (name, h2, k2) = bind_ok (get_group_name self) _ addrs k1 in
      let (instances, h3, k3) = bind_ok (group_instances name) _ addrs k2 in
      (
        self,
        name,
        instances,
        h1,
        h2,
        h3,
        other_addrs_iff (is_routable_ipv4 net) (λ i. str_eq i self) get_instance_ip_address
            instances addrs a k3,
      )

-- The tags of `NewAmazonInstanceTagPeerGetter`, of which a later one takes the place of one with its
-- key, by the errors of the configuration and the client.
set_tags : List KeyValue → Assoc Text → Assoc Text
set_tags [] tags = tags
set_tags (kv ∷ kvs) tags = set_tags kvs (insert kv.key kv.value tags)

with_client : {A : Type 0} → Option Error → Option Error → A → Result A
with_client (some e) client a = err e
with_client none (some e) a = err e
with_client none none a = ok a

unfoldable pub new_instance_tag_getter :
    Option Error → Option Error → List KeyValue → Result (Assoc Text)
unfolding set_tags with_client
new_instance_tag_getter cfg client [] = err (other (codes "must provide at least 1 tag key/value"))
new_instance_tag_getter cfg client (kv ∷ kvs) = with_client cfg client (set_tags (kv ∷ kvs) [])

unfoldable pub new_auto_scaling_getter : Option Error → Option Error → Result (Unit {0})
unfolding with_client
new_auto_scaling_getter cfg client = with_client cfg client tt

-- `GetAddrs` of the two
unfoldable pub auto_scaling_addrs : Net → Services → Result (List Text)
auto_scaling_addrs net services = get_auto_scaling_group_addresses net services

unfoldable pub instance_tag_addrs : Net → Services → Assoc Text → Result (List Text)
instance_tag_addrs net services tags = get_addresses_by_tag net services tags
