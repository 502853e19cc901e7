-- ===== src/Manager/Peers.antt =====
-- pkg/manager/server.go: the peers with which a cluster is started, joined or recovered.
mod Tests
use mathlib.Core.Bool.{Bool-set}
use mathlib.Core.Logic.{∥∥₁_elim}
use mathlib.Core.List.{Perm, Permᴰ}
use e2d.Prelude.Sort.{sort_strings, sort_map-perm}
use e2d.Prelude.{
  ℕ, suc, Bool, any, ◌+◌, ◌-◌, ◌/◌, ◌≤◌, ◌≡◌, refl, sym, ap, ◌∙◌, ◌≢◌, ◌↔◌, ◌||◌, Option, none,
  some, List, [], ◌∷◌, ◌++◌, map, arith, ltb, if◌then◌else◌, length, All, Text, codes, str_eq,
  str_eq_iff, Error, other,
}

pub record Peer : Type 0 where
  pub name : Text
  pub url : Text

-- `Peer.String`; `initialClusterStringFromPeers` formats an entry in the same way.
unfoldable pub peer_string : Peer → Text
peer_string p = p.name ++ codes "=" ++ p.url

-- strings.Join
unfoldable pub join : Text → List Text → Text
join sep [] = []
join sep (s ∷ []) = s
join sep (s ∷ t ∷ rest) = s ++ sep ++ join sep (t ∷ rest)

-- The test for an empty list comes before the sort, as in the source.
join_entries : List Text → Text
unfolding join sort_strings
join_entries [] = []
join_entries (e ∷ es) = join (codes ",") (sort_strings (e ∷ es))

unfoldable pub initial_cluster_string_from_peers : List Peer → Text
unfolding join_entries
initial_cluster_string_from_peers peers = join_entries (map peer_string peers)

first_blank : List Peer → Option Error
first_blank [] = none
first_blank (p ∷ ps) =
    if str_eq p.name [] || str_eq p.url []
    then some (other (codes "peer name/url cannot be blank"))
    else first_blank ps

unfoldable pub validate_peers : List Peer → ℕ → Option Error
unfolding first_blank
validate_peers peers required = elim (first_blank peers) [
  | some e ↦ some e
  | none ↦
      if ltb (length peers) required then some (other (codes "expected more members")) else none
]

abbrev pub IsNamed : Peer → Type 0
IsNamed p = (p.name ≢ []) × (p.url ≢ [])

first_blank-none : (ps : List Peer) → first_blank ps ≡ none → All IsNamed ps
unfolding first_blank
first_blank-none [] h = tt
first_blank-none (p ∷ ps) h = (
  (ground (arith, str_eq_iff p.name []), ground (arith, str_eq_iff p.url [])),
  first_blank-none ps (ground arith),
)

none-first_blank : (ps : List Peer) → All IsNamed ps → first_blank ps ≡ none
unfolding first_blank
none-first_blank [] h = refl
none-first_blank (p ∷ ps) h =
    ground (arith, str_eq_iff p.name [], str_eq_iff p.url [], none-first_blank ps h.1, h.0.0, h.0.1)

-- The peers are accepted exactly if each has a name and a URL and there are at least as many as
-- the cluster requires.
pub validate_peers_iff :
    (peers : List Peer) (required : ℕ)
    → (validate_peers peers required ≡ none) ↔ (All IsNamed peers × (required ≤ length peers))
unfolding validate_peers
validate_peers_iff peers required = (
  λ h. (first_blank-none peers (ground arith), ground arith),
  λ h. ground (arith, none-first_blank peers h.0),
)

or_comm : (a b c : Bool) → (a || (b || c)) ≡ (b || (a || c))
or_comm a b c = ground arith

abbrev is_blank : Peer → Bool
is_blank p = str_eq p.name [] || str_eq p.url []

first_blank-any :
    (ps : List Peer)
    → first_blank ps
      ≡ (if any is_blank ps then some (other (codes "peer name/url cannot be blank")) else none)
unfolding first_blank
first_blank-any [] = refl
first_blank-any (p ∷ ps) = ground (arith, first_blank-any ps)

any-permᴰ : {ps qs : List Peer} → Permᴰ ps qs → any is_blank ps ≡ any is_blank qs
any-permᴰ Permᴰ.nil = refl
any-permᴰ (Permᴰ.cons e d) = λ i. is_blank (e i) || any-permᴰ d i
any-permᴰ (Permᴰ.swap {a = a} {b = b} {l = l} p q) =
    or_comm (is_blank a) (is_blank b) (any is_blank l)
    ∙ (λ i. is_blank (q i) || (is_blank (p i) || any is_blank l))
any-permᴰ (Permᴰ.trans d e) = any-permᴰ d ∙ any-permᴰ e

length-permᴰ : {ps qs : List Peer} → Permᴰ ps qs → length ps ≡ length qs
length-permᴰ Permᴰ.nil = refl
length-permᴰ (Permᴰ.cons e d) = ap suc (length-permᴰ d)
length-permᴰ (Permᴰ.swap p q) = refl
length-permᴰ (Permᴰ.trans d e) = length-permᴰ d ∙ length-permᴰ e

length_set : IsSet ℕ
length_set = hlevel

-- Whether peers are accepted, and the error, do not depend on their order.
pub validate_peers-perm :
    {ps qs : List Peer} (required : ℕ)
    → Perm ps qs
    → validate_peers ps required ≡ validate_peers qs required
unfolding validate_peers
validate_peers-perm {ps} {qs} required p =
    let blank : any is_blank ps ≡ any is_blank qs =
      ∥∥₁_elim p (Bool-set (any is_blank ps) (any is_blank qs)) any-permᴰ in
    let sizes : length ps ≡ length qs =
      ∥∥₁_elim p (length_set (length ps) (length qs)) length-permᴰ in
    let first : first_blank ps ≡ first_blank qs =
      first_blank-any ps
      ∙ ap (λ b. if b then some (other (codes "peer name/url cannot be blank")) else none) blank
      ∙ sym (first_blank-any qs) in
    (λ i. elim (first i) [
      | some e ↦ some e
      | none ↦ if ltb (sizes i) required then some (other (codes "expected more members")) else none
    ])

join_entries_lem : (es : List Text) → join_entries es ≡ join (codes ",") (sort_strings es)
unfolding join_entries
join_entries_lem [] = refl
join_entries_lem (e ∷ es) = refl

-- The entries of all peers, sorted and joined by commas.
pub initial_cluster_string_lem :
    (peers : List Peer)
    → initial_cluster_string_from_peers peers
      ≡ join (codes ",") (sort_strings (map (λ (p : Peer). p.name ++ codes "=" ++ p.url) peers))
unfolding initial_cluster_string_from_peers peer_string
initial_cluster_string_lem peers = join_entries_lem (map peer_string peers)

-- Members that know the same peers build the same initial cluster string, in whichever order the
-- gossip network lists the peers.
pub initial_cluster_string-perm :
    {ps qs : List Peer}
    → Perm ps qs
    → initial_cluster_string_from_peers ps ≡ initial_cluster_string_from_peers qs
unfolding initial_cluster_string_from_peers
initial_cluster_string-perm {ps} {qs} p =
    join_entries_lem (map peer_string ps)
    ∙ ap (join (codes ",")) (sort_map-perm peer_string p)
    ∙ sym (join_entries_lem (map peer_string qs))
