-- ===== src/Providers/DigitalOcean.antt =====
-- pkg/provider/digitalocean/client.go, and the getters of pkg/discovery that are left.
use e2d.Netutil.{Net, is_routable_ipv4}
use e2d.Providers.Addrs.{other_addrs, other_addrs_iff, IsOther}
use e2d.Prelude.{ℕ, ◌≡◌, ◌↔◌, List, [], ◌==◌, In, Text, Result, ok, bind_ok, ◌>>=◌}

-- godo.Droplet, with what PrivateIPv4 answers
pub record Droplet : Type 0 where
  pub id : ℕ
  pub private_ipv4 : Result Text

-- The id of this droplet and the droplets that have a tag, of which the service lists the first page.
pub record Droplets : Type 0 where
  pub metadata : Result ℕ
  pub list_by_tag : Text → Result (List Droplet)

-- `Config`, which is its own source of tokens
pub record Config : Type 0 where
  pub access_token : Text
  pub spaces_access_key : Text
  pub spaces_secret_key : Text

unfoldable pub token : Config → Result Text
token cfg = ok cfg.access_token

-- The configuration of the client that `NewDigitalOceanPeerGetter` makes
unfoldable pub peer_getter_config : Text → Config
peer_getter_config access_token = record {
  access_token = access_token;
  spaces_access_key = [];
  spaces_secret_key = [];
}

-- `GetAddrsByTag`
unfoldable pub get_addrs_by_tag : Net → Droplets → Text → Result (List Text)
get_addrs_by_tag net service tag = do
  self ← service.metadata
  droplets ← service.list_by_tag tag
  other_addrs (is_routable_ipv4 net) (λ (d : Droplet). d.id == self) (λ d. d.private_ipv4) droplets

-- `NoopGetter`
unfoldable pub noop_addrs : Result (List Text)
noop_addrs = ok []

-- The addresses of a tag are exactly the routable ones of the droplets that are listed for it, but of
-- this one.
pub get_addrs_by_tag_iff :
    (net : Net) (service : Droplets) (tag : Text) (addrs : List Text) (a : Text)
    → get_addrs_by_tag net service tag ≡ ok addrs
    → (self : ℕ) × (droplets : List Droplet) × (service.metadata ≡ ok self)
      × (service.list_by_tag tag ≡ ok droplets)
      × (In a addrs
          ↔ IsOther
              (is_routable_ipv4 net)
              (λ (d : Droplet). d.id == self)
              (λ d. d.private_ipv4)
              droplets
              a)
unfolding get_addrs_by_tag
get_addrs_by_tag_iff net service tag addrs a h =
    let (self, h1, k1) = bind_ok service.metadata _ addrs h in
    let (droplets, h2, k2) = bind_ok (service.list_by_tag tag) _ addrs k1 in
    (
      self,
      droplets,
      h1,
      h2,
      other_addrs_iff (is_routable_ipv4 net) (λ (d : Droplet). d.id == self) (λ d. d.private_ipv4)
          droplets addrs a k2,
    )
